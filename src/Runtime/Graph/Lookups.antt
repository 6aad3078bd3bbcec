-- ===== src/Runtime/Graph/Lookups.antt =====
-- What `resolve` finds: the provider of an id, an instance, and never `undefined` for a provider.
use doxajs.Base.{
  String, ℕ, zero, suc, Bool, true, false, not, Option, none, some, List, [], ◌∷◌, ◌≡◌, inl, inr,
  refl, subst, has, Elem, str_eq, eq_iff, if-cases, Bool-cases, if◌then◌else◌,
}
use doxajs.Compiler.Manifest.{Provider, by_id}
use doxajs.Compiler.Scopes.{is_singleton}
use doxajs.Runtime.Graph.{
  Instance, Parts, Participant, State, Result, done, failed, out_of_fuel, ◌>>=◌, Lookup, ready,
  unknown, provided, lookup, lookup_provider, is_included, find_instance, constructor_dependencies,
  resolve_targets, resolve_arguments, instantiate, construct, leave, resolve_provider,
  singleton_instance, resolve_lookup, resolve,
}
use doxajs.Runtime.Graph.Order.{ids_of}

-- What the conditional of an instance tells.
pub if-some :
    {A : Type 0} (b : Bool) (o : Option A) (a : A)
    → (if b then o else none) ≡ some a
    → (b ≡ true) × (o ≡ some a)
if-some true o a h = (refl, h)
if-some false o a h = absurd (cc)

pub if-none :
    {A : Type 0} (b : Bool) (o : Option A) → (if b then o else none) ≡ none → b ≡ true → o ≡ none
if-none true o h e = h
if-none false o h e = absurd (cc)

pub Elem-of_find :
    (id : String) (ps : List Participant) (i : Instance)
    → find_instance id ps ≡ some i
    → Elem id (ids_of ps)
unfolding find_instance
Elem-of_find id [] i h = absurd (cc)
Elem-of_find id (p ∷ ps) i h = elim (Bool-cases (str_eq p.id id)) [
  | inl same ↦ inl ((eq_iff p.id id).0 same)
  | inr other ↦ inr (Elem-of_find id ps i (rw other at h))
]

pub find-none-Elem :
    (id : String) (ps : List Participant) → find_instance id ps ≡ none → ¬ Elem id (ids_of ps)
unfolding find_instance
find-none-Elem id [] h m = m
find-none-Elem id (p ∷ ps) h m = elim (Bool-cases (str_eq p.id id)) [
  | inl same ↦ absurd (cc (rw same at h))
  | inr other ↦ elim m [
    | inl e ↦ cc ((eq_iff p.id id).1 e)
    | inr later ↦ find-none-Elem id ps (rw other at h) later
  ]
]

module _ (parts : Parts) where
  pub by_id-lookup :
      (id : String) (p : Provider)
      → lookup parts id ≡ provided p
      → by_id parts.providers id ≡ some p
  unfolding lookup
  by_id-lookup id p =
      if-cases (λ x. x ≡ provided p → by_id parts.providers id ≡ some p) (str_eq id "doxa:logger") _
        _ (λ _ h. absurd (cc))
        (λ _.
          if-cases (λ x. x ≡ provided p → by_id parts.providers id ≡ some p)
            (has id parts.configurations) _ _ (λ _ h. absurd (cc))
            (λ _. of_lookup (by_id parts.providers id)))
    where
      of_lookup :
          (o : Option Provider) → lookup_provider parts.included id o ≡ provided p → o ≡ some p
      of_lookup none = λ h. absurd (cc)
      of_lookup (some q) =
          if-cases (λ x. x ≡ provided p → some q ≡ some p) (is_included parts.included id) _ _
            (λ _ h. cc) (λ _ h. absurd (cc))

  -- The answer is not `undefined`.
  abbrev Answers : Result (Option Instance) → Type 0
  Answers (done none s) = ⊥
  Answers r = Unit

  bind-Answers :
      {A : Type 0} (r : Result A) (k : A → State → Result (Option Instance))
      → ((a : A) (s : State) → Answers (k a s))
      → Answers (r >>= k)
  bind-Answers (done a s) k f = f a s
  bind-Answers (failed e) k f = tt
  bind-Answers out_of_fuel k f = tt

  leave-Answers : (id : String) (r : Result (Option Instance)) → Answers r → Answers (leave id r)
  leave-Answers id (done none s) a = a
  leave-Answers id (done (some i) s) a = tt
  leave-Answers id (failed e) a = tt
  leave-Answers id out_of_fuel a = tt

  construct-Answers :
      (call : String → State → Result (Option Instance)) (id : String) (p : Provider) (s : State)
      → Answers (construct parts call id p s)
  unfolding construct instantiate
  construct-Answers call id p s =
      if-cases Answers (has id parts.overrides) _ _
        (λ _. bind-Answers (resolve_targets call p.dependencies s) _ (λ u t. tt))
        (λ _.
          if-cases Answers (not (parts.has_constructor id)) _ _ (λ _. tt)
            (λ _.
              bind-Answers (resolve_arguments call id (constructor_dependencies p.dependencies) s) _
                (λ args t.
                  if-cases Answers (parts.throws id args) _ _ (λ _. tt)
                    (λ _. if-cases Answers (is_singleton p.scope) _ _ (λ _. tt) (λ _. tt)))))

  resolve_provider-Answers :
      (call : String → State → Result (Option Instance)) (id : String) (p : Provider)
      (o : Option Instance) (s : State)
      → Answers (resolve_provider parts call id p o s)
  unfolding resolve_provider
  resolve_provider-Answers call id p (some i) s = tt
  resolve_provider-Answers call id p none s =
      if-cases Answers (has id s.stack) _ _ (λ _. tt)
        (λ _. leave-Answers id _ (construct-Answers call id p (record s { stack = id ∷ s.stack })))

  answered :
      (call : String → State → Result (Option Instance)) (id : String) (l : Lookup) (s u : State)
      → resolve_lookup parts call id l s ≡ done none u
      → l ≡ unknown
  answered call id (ready i) s u e = absurd (cc)
  answered call id unknown s u e = refl
  answered call id (provided p) s u e =
      absurd (subst Answers e (resolve_provider-Answers call id p (singleton_instance p id s) s))

  pub resolve-unknown :
      (fuel : ℕ) (id : String) (s u : State)
      → resolve parts fuel id s ≡ done none u
      → lookup parts id ≡ unknown
  unfolding resolve
  resolve-unknown zero id s u e = absurd (cc)
  resolve-unknown (suc fuel) id s u e =
      answered (λ t s'. resolve parts fuel t s') id (lookup parts id) s u e
