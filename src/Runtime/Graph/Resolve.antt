-- ===== src/Runtime/Graph/Resolve.antt =====
-- `resolve` ends, and constructs what a provider needs before the provider itself.
use doxajs.Base.{
  length, String, ℕ, zero, suc, ◌<◌, true, false, not, Option, none, some, List, ◌∷◌, ◌≡◌, ◌≢◌, inl,
  inr, refl, sym, ap, subst, ◌∙◌, has, delete, delete-cons_self, Elem, missing, missing-cons,
  Elem-of_has, not-Elem-of_has, if-cases, not-true, arith,
}
use doxajs.Compiler.Manifest.{Provider}
use doxajs.Compiler.Cycles.Graph.{Targets, ids, Elem-of_Provided}
use doxajs.Compiler.Scopes.{is_singleton}
use doxajs.Runtime.Graph.{
  Instance, constructed, Parts, State, Result, done, failed, out_of_fuel, Lookup, ready, unknown,
  provided, lookup, constructor_dependencies, instantiate, construct, leave, resolve_provider,
  singleton_instance, resolve_lookup, resolve,
}
use doxajs.Runtime.Graph.Order.{
  ids_of, used, itself, through, Covers, IsOrdered, Follows, Follows-refl, Ends, Reached, Depends,
  uses, then_uses, Pending,
}
use doxajs.Runtime.Graph.Dependencies.{resolve_targets-Ends, resolve_arguments-Ends}
use doxajs.Runtime.Graph.Lookups.{
  if-some, if-none, Elem-of_find, find-none-Elem, by_id-lookup, resolve-unknown,
}
use doxajs.Runtime.Graph.Construct.{
  Builds, bind-Builds, join-Joined, pass-Joined, singleton-Reached,
}

module _ (parts : Parts) where
  module _ (id : String) (p : Provider) (e : lookup parts id ≡ provided p)
      (checked : has id parts.overrides ≡ true → is_singleton p.scope ≡ true) where
    instantiate-Builds :
        (t : State) (args : List (Option Instance))
        → IsOrdered parts t
        → Covers parts (used parts id p) (ids_of t.participants)
        → (is_singleton p.scope ≡ true → ¬ Elem id (ids_of t.participants))
        → Builds parts t id (instantiate parts id p args t)
    unfolding instantiate
    instantiate-Builds t args o c fresh =
        if-cases (Builds parts t id) (parts.throws id args) _ _ (λ h. (args, h))
          (λ h.
            if-cases (Builds parts t id) (is_singleton p.scope) _ _
              (λ single.
                let j =
                  join-Joined parts id p e t (constructed (length t.calls)) single o c
                    (fresh single) in
                record {
                  ordered = j.ordered;
                  grows = j.grows;
                  same_stack = j.same_stack;
                  waits = j.waits;
                  reached = j.reached;
                })
              (λ plain.
                let j = pass-Joined parts id p e t plain o c in
                record {
                  ordered = j.ordered;
                  grows = j.grows;
                  same_stack = j.same_stack;
                  waits = j.waits;
                  reached = j.reached;
                }))

    fresh-after :
        (s t : State)
        → Elem id s.stack
        → (is_singleton p.scope ≡ true → ¬ Elem id (ids_of s.participants))
        → Follows parts s t
        → is_singleton p.scope ≡ true
        → ¬ Elem id (ids_of t.participants)
    fresh-after s t on_stack fresh f single m = elim (f.waits id m) [
      | inl old ↦ fresh single old
      | inr new ↦ new on_stack
    ]

    construct-Builds :
        (call : String → State → Result (Option Instance)) (s : State)
        → ((t : String) (u : State)
            → Targets t (used parts id p)
            → u.stack ≡ s.stack
            → IsOrdered parts u
            → Ends parts u (Reached parts t) (call t u))
        → ((t : String) (u v : State) → call t u ≡ done none v → lookup parts t ≡ unknown)
        → IsOrdered parts s
        → Elem id s.stack
        → (is_singleton p.scope ≡ true → ¬ Elem id (ids_of s.participants))
        → Builds parts s id (construct parts call id p s)
    unfolding construct
    construct-Builds call s works answers o on_stack fresh =
        if-cases (Builds parts s id) (has id parts.overrides) _ _
          (λ over.
            bind-Builds parts s id (Covers parts p.dependencies) _ _
              (resolve_targets-Ends parts s.stack (λ k. Targets k (used parts id p)) call works
                answers p.dependencies s (λ k m. rw over m) refl o)
              (λ u t f c.
                join-Joined parts id p e t _ (checked over) f.ordered (rw over c)
                  (fresh-after s t on_stack fresh f (checked over))))
          (λ plain.
            if-cases (Builds parts s id) (not (parts.has_constructor id)) _ _
              (λ h. ((p, e), not-true _ h))
              (λ h.
                bind-Builds parts s id (Covers parts (constructor_dependencies p.dependencies)) _ _
                  (resolve_arguments-Ends parts s.stack (λ k. Targets k (used parts id p)) call
                    works answers id (constructor_dependencies p.dependencies) s
                    (λ k m n. (n, (p, e, m))) (λ k m. rw plain m) refl o)
                  (λ args t f c.
                    instantiate-Builds t args f.ordered (rw plain c)
                      (fresh-after s t on_stack fresh f))))

  leave-Ends :
      (id : String) (s : State) (r : Result (Option Instance))
      → ¬ Elem id s.stack
      → Builds parts (record s { stack = id ∷ s.stack }) id r
      → Ends parts s (Reached parts id) (leave id r)
  leave-Ends id s (done o u) off j = (
    record {
      ordered = j.ordered;
      grows = j.grows;
      same_stack = ap (delete id) j.same_stack ∙ delete-cons_self id s.stack;
      waits = λ k m. elim (j.waits k m) [
        | inl old ↦ inl old
        | inr (inl same) ↦ inr (subst (λ v. ¬ Elem v s.stack) (sym same) off)
        | inr (inr new) ↦ inr (λ later. new (inr later))
      ];
    },
    j.reached,
  )
  leave-Ends id s (failed e) off j = j
  leave-Ends id s out_of_fuel off j = elim j [ ]

  resolve_provider-Ends :
      (id : String) (p : Provider) (call : String → State → Result (Option Instance)) (s : State)
      (o : Option Instance)
      → lookup parts id ≡ provided p
      → (has id parts.overrides ≡ true → is_singleton p.scope ≡ true)
      → (has id s.stack ≡ false
          → (t : String) (u : State) → Targets t (used parts id p)
          → u.stack ≡ id ∷ s.stack
          → IsOrdered parts u
          → Ends parts u (Reached parts t) (call t u))
      → ((t : String) (u v : State) → call t u ≡ done none v → lookup parts t ≡ unknown)
      → Pending parts s.stack id
      → IsOrdered parts s
      → singleton_instance p id s ≡ o
      → Ends parts s (Reached parts id) (resolve_provider parts call id p o s)
  unfolding resolve_provider
  resolve_provider-Ends id p call s (some i) e checked works answers w h old =
      let (single, found) = if-some (is_singleton p.scope) _ i old in
      (
        Follows-refl parts s h,
        singleton-Reached parts id p e (ids_of s.participants) single
            (Elem-of_find id s.participants i found),
      )
  resolve_provider-Ends id p call s none e checked works answers w h new =
      if-cases (Ends parts s (Reached parts id)) (has id s.stack) _ _
        (λ c. w id (Elem-of_has id s.stack c))
        (λ off. leave-Ends id s _ (not-Elem-of_has id s.stack off) (
          construct-Builds id p e checked call (record s { stack = id ∷ s.stack }) (works off)
            answers h (inl refl)
            (λ single.
              find-none-Elem id s.participants (if-none (is_singleton p.scope) _ new single))))

  -- An override is of a singleton.
  abbrev pub Checked : Type 0
  Checked =
      (id : String) (p : Provider)
      → lookup parts id ≡ provided p
      → has id parts.overrides ≡ true
      → is_singleton p.scope ≡ true

  nothing_known :
      (id : String) (l : Lookup) (set : List String)
      → lookup parts id ≡ l
      → ((p : Provider) → l ≢ provided p)
      → Reached parts id set
  nothing_known id l set e none_given k (itself p e' y) = absurd (none_given p (sym e ∙ e'))
  nothing_known id l set e none_given k (through p t e' n u r) = absurd (none_given p (sym e ∙ e'))

  module _ (checked : Checked) (fuel : ℕ) (call : String → State → Result (Option Instance))
      (works : (t : String) (u : State)
        → Pending parts u.stack t
        → missing (ids parts.providers) u.stack < fuel
        → IsOrdered parts u
        → Ends parts u (Reached parts t) (call t u))
      (answers : (t : String) (u v : State) → call t u ≡ done none v → lookup parts t ≡ unknown)
      (id : String) (s : State) (w : Pending parts s.stack id)
      (enough : missing (ids parts.providers) s.stack < suc fuel) (h : IsOrdered parts s) where
    pending_on :
        (p : Provider)
        → lookup parts id ≡ provided p
        → (t : String) → Targets t (used parts id p)
        → Pending parts (id ∷ s.stack) t
    pending_on p e t m k (inl same) = subst (λ v. Depends parts v t) same (uses p e m)
    pending_on p e t m k (inr old) = then_uses id p (w k old) e m

    deeper :
        (p : Provider)
        → lookup parts id ≡ provided p
        → has id s.stack ≡ false
        → (t : String) (u : State) → Targets t (used parts id p)
        → u.stack ≡ id ∷ s.stack
        → IsOrdered parts u
        → Ends parts u (Reached parts t) (call t u)
    deeper p e off t u m same h' =
        works t u (subst (λ st. Pending parts st t) (sym same) (pending_on p e t m))
          (subst (λ st. missing (ids parts.providers) st < fuel) (sym same)
            (omega (
              arith,
              missing-cons (ids parts.providers) s.stack id
                  (Elem-of_Provided parts.providers id (p, by_id-lookup parts id p e))
                  (not-Elem-of_has id s.stack off),
            )))
          h'

    resolve_lookup-Ends :
        (l : Lookup)
        → lookup parts id ≡ l
        → Ends parts s (Reached parts id) (resolve_lookup parts call id l s)
    resolve_lookup-Ends (ready i) e =
        (Follows-refl parts s h, nothing_known id (ready i) (ids_of s.participants) e (λ p e'. cc))
    resolve_lookup-Ends unknown e =
        (Follows-refl parts s h, nothing_known id unknown (ids_of s.participants) e (λ p e'. cc))
    resolve_lookup-Ends (provided p) e =
        resolve_provider-Ends id p call s (singleton_instance p id s) e (checked id p e)
          (deeper p e) answers w h refl

  pub resolve-Ends :
      (fuel : ℕ) (id : String) (s : State)
      → Checked
      → Pending parts s.stack id
      → missing (ids parts.providers) s.stack < fuel
      → IsOrdered parts s
      → Ends parts s (Reached parts id) (resolve parts fuel id s)
  unfolding resolve
  resolve-Ends zero id s checked w enough h = absurd (omega arith)
  resolve-Ends (suc fuel) id s checked w enough h =
      resolve_lookup-Ends checked fuel (λ t u. resolve parts fuel t u)
        (λ t u v fits o. resolve-Ends fuel t u checked v fits o)
        (λ t u v e. resolve-unknown parts fuel t u v e) id s w enough h (lookup parts id) refl
