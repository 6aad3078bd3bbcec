-- ===== src/Runtime/Graph/Dependencies.antt =====
-- The dependencies of a provider, once `resolve` is known to work for each.
use doxajs.Base.{
  String, Bool, not, Option, none, some, List, [], ◌∷◌, ◌≡◌, inl, inr, refl, subst, ◌∙◌, Within,
  if-cases,
}
use doxajs.Compiler.Manifest.{Dependency, target}
use doxajs.Compiler.Cycles.Graph.{Targets}
use doxajs.Runtime.Graph.{
  Instance, unavailable, Parts, State, Result, done, failed, out_of_fuel, ◌>>=◌, unknown, lookup,
  resolve_target, resolve_targets, demand, resolve_argument, resolve_arguments,
}
use doxajs.Runtime.Graph.Order.{
  ids_of, Leads, Covers, IsOrdered, Follows, Follows-refl, Ends, bind-Ends, Reached, Why,
}

module _ (parts : Parts) where
  -- The dependencies of one provider, resolved in a state with the stack `st`.
  module _ (st : List String) (IsUsed : String → Type 0)
      (call : String → State → Result (Option Instance))
      (works : (t : String) (s : State)
        → IsUsed t
        → s.stack ≡ st
        → IsOrdered parts s
        → Ends parts s (Reached parts t) (call t s))
      (answers : (t : String) (s u : State)
        → call t s ≡ done none u
        → lookup parts t ≡ unknown) where
    -- An optional id, if there is one, is resolved.
    abbrev Wants : Option String → List String → Type 0
    Wants o set = (t : String) → o ≡ some t → Reached parts t set

    Wants-some :
        (t : String) (xs ys : List String)
        → Reached parts t xs
        → Within xs ys
        → Unit {0}
        → Wants (some t) ys
    Wants-some t xs ys r w u k e j l = w j (r j (subst (λ v. Leads parts v j) (cc) l))

    settled : (s : State) → IsOrdered parts s → Follows parts s s × Unit {0}
    settled s o = (Follows-refl parts s o, tt)

    resolve_target-Ends :
        (o : Option String) (s : State)
        → ((t : String) → o ≡ some t → IsUsed t)
        → s.stack ≡ st
        → IsOrdered parts s
        → Ends parts s (Wants o) (resolve_target call o s)
    resolve_target-Ends none s v e h = (Follows-refl parts s h, λ t e'. absurd (cc))
    resolve_target-Ends (some t) s v e h =
        bind-Ends parts s (Reached parts t) (λ set. Unit) (Wants (some t)) (call t s) _
          (works t s (v t refl) e h) (λ a u f p. settled u f.ordered) (Wants-some t)

    -- What an error about a missing dependency of the id is to tell.
    abbrev pub Blames : String → Type 0
    Blames id = (t : String) → IsUsed t → lookup parts t ≡ unknown → Why parts (unavailable t id)

    demand-Ends :
        (id t : String) (optional : Bool) (s : State) (r : Result (Option Instance))
        → (lookup parts t ≡ unknown → Why parts (unavailable t id))
        → Ends parts s (Reached parts t) r
        → ((u : State) → r ≡ done none u → lookup parts t ≡ unknown)
        → Ends parts s (Wants (some t)) (r >>= λ o u. demand id t optional o u)
    demand-Ends id t optional s (done (some i) u) b (f, r) a =
        (f, Wants-some t (ids_of u.participants) (ids_of u.participants) r (λ k m. m) tt)
    demand-Ends id t optional s (done none u) b (f, r) a =
        if-cases (Ends parts s (Wants (some t))) (not optional) _ _ (λ n. b (a u refl))
          (λ n. (f, Wants-some t (ids_of u.participants) (ids_of u.participants) r (λ k m. m) tt))
    demand-Ends id t optional s (failed e) b w a = w
    demand-Ends id t optional s out_of_fuel b w a = elim w [ ]

    resolve_argument-Ends :
        (id : String) (optional : Bool) (o : Option String) (s : State)
        → Blames id
        → ((t : String) → o ≡ some t → IsUsed t)
        → s.stack ≡ st
        → IsOrdered parts s
        → Ends parts s (Wants o) (resolve_argument call id optional o s)
    resolve_argument-Ends id optional none s b v e h = (Follows-refl parts s h, λ t e'. absurd (cc))
    resolve_argument-Ends id optional (some t) s b v e h =
        demand-Ends id t optional s (call t s) (b t (v t refl)) (works t s (v t refl) e h)
          (answers t s)

    Covers-cons :
        (d : Dependency) (ds : List Dependency) (xs ys : List String)
        → Wants (target d) xs
        → Within xs ys
        → Covers parts ds ys
        → Covers parts (d ∷ ds) ys
    Covers-cons d ds xs ys p w q t k m l = elim m [
      | inl e ↦ w k (p t e k l)
      | inr later ↦ q t k later l
    ]

    pub resolve_targets-Ends :
        (ds : List Dependency) (s : State)
        → ((t : String) → Targets t ds → IsUsed t)
        → s.stack ≡ st
        → IsOrdered parts s
        → Ends parts s (Covers parts ds) (resolve_targets call ds s)
    unfolding resolve_targets
    resolve_targets-Ends [] s v e h = (Follows-refl parts s h, λ t k m l. absurd m)
    resolve_targets-Ends (d ∷ ds) s v e h =
        bind-Ends parts s (Wants (target d)) (Covers parts ds) (Covers parts (d ∷ ds)) _ _
          (resolve_target-Ends (target d) s (λ k m. v k (inl m)) e h)
          (λ u t f p. resolve_targets-Ends ds t (λ k m. v k (inr m)) (f.same_stack ∙ e) f.ordered)
          (Covers-cons d ds)

    pub resolve_arguments-Ends :
        (id : String) (ds : List Dependency) (s : State)
        → Blames id
        → ((t : String) → Targets t ds → IsUsed t)
        → s.stack ≡ st
        → IsOrdered parts s
        → Ends parts s (Covers parts ds) (resolve_arguments call id ds s)
    unfolding resolve_arguments
    resolve_arguments-Ends id [] s b v e h = (Follows-refl parts s h, λ t k m l. absurd m)
    resolve_arguments-Ends id (d ∷ ds) s b v e h =
        bind-Ends parts s (Wants (target d)) (Covers parts ds) (Covers parts (d ∷ ds)) _ _
          (resolve_argument-Ends id d.optional (target d) s b (λ k m. v k (inl m)) e h)
          (λ a t f p.
            bind-Ends parts t (Covers parts ds) (λ set. Unit) (Covers parts ds) _ _
              (resolve_arguments-Ends id ds t b (λ k m. v k (inr m)) (f.same_stack ∙ e) f.ordered)
              (λ args u g q. settled u g.ordered) (λ xs ys c w u t' k m l. w k (c t' k m l)))
          (Covers-cons d ds)
