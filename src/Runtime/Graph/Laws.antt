-- ===== src/Runtime/Graph/Laws.antt =====
-- The graph of singletons is in order and complete, or an error tells why there is none.
use doxajs.Base.{
  String, suc, Bool, true, false, ◌&&◌, Option, none, some, List, [], ◌∷◌, ◌≡◌, ◌≢◌, inl, inr, refl,
  sym, subst, ◌∙◌, Among, Elem, missing-nil, length, Elem-of_has, if-cases, Bool-cases, of_some,
  arith,
}
use doxajs.Compiler.Manifest.{Provider, by_id}
use doxajs.Compiler.Cycles.Graph.{Targets, ids, length-ids}
use doxajs.Compiler.Scopes.{is_singleton}
use doxajs.Runtime.Graph.{
  Parts, State, Result, done, failed, out_of_fuel, is_included, lookup, provided, construct_each,
  refused_override, declares_singleton, unless_refused, no_instances, construct_singleton_graph,
  Failure, undeclared_override, missing_constructor, constructor_throws, cyclic, unavailable,
  unknown, Instance,
}
use doxajs.Runtime.Graph.Order.{
  ids_of, IsOrdered, Follows-refl, Ends, bind-Ends, Reached, Why, Depends, used,
}
use doxajs.Runtime.Graph.Resolve.{resolve-Ends, Checked}
use doxajs.Runtime.Graph.Lookups.{by_id-lookup}

module _ (parts : Parts) where
  -- Every included singleton of the list, and what it leads to, is in the set.
  abbrev pub Complete : List Provider → List String → Type 0
  Complete ps set =
      (p : Provider)
      → Among p ps
      → is_singleton p.scope ≡ true
      → is_included parts.included p.id ≡ true
      → Reached parts p.id set

  and-true : (a b : Bool) → a ≡ true → b ≡ true → (a && b) ≡ true
  and-true a b h k = rw (h, k)

  construct_each-Ends :
      (ps : List Provider) (s : State)
      → Checked parts
      → s.stack ≡ []
      → IsOrdered parts s
      → Ends parts s (Complete ps) (construct_each parts ps s)
  unfolding construct_each
  construct_each-Ends [] s c e h = (Follows-refl parts s h, λ p m y i. absurd m)
  construct_each-Ends (p ∷ ps) s c e h =
      if-cases (Ends parts s (Complete (p ∷ ps)))
        (is_singleton p.scope && is_included parts.included p.id) _ _
        (λ wanted.
          bind-Ends parts s (Reached parts p.id) (Complete ps) (Complete (p ∷ ps)) _ _
            (resolve-Ends parts (suc (length parts.providers)) p.id s c
              (λ k m. absurd (subst (Elem k) e m))
              (rw e (omega (arith, missing-nil (ids parts.providers), length-ids parts.providers)))
              h)
            (λ o t f r. construct_each-Ends ps t c (f.same_stack ∙ e) f.ordered)
            (λ xs ys r w q d m y i. elim m [
              | inl same ↦ subst (λ (v : Provider). Reached parts v.id ys) same (λ k l. w k (r k l))
              | inr later ↦ q d later y i
            ]))
        (λ unwanted. skip (construct_each parts ps s) unwanted (construct_each-Ends ps s c e h))
    where
      skip :
          (r : Result Unit)
          → (is_singleton p.scope && is_included parts.included p.id) ≡ false
          → Ends parts s (Complete ps) r
          → Ends parts s (Complete (p ∷ ps)) r
      skip (done u t) n (f, q) = (
        f,
        λ d m y i. elim m [
          | inl same ↦ absurd (
              cc (
                and-true (is_singleton p.scope) (is_included parts.included p.id)
                  (subst (λ (v : Provider). is_singleton v.scope ≡ true) (sym same) y)
                  (subst (λ (v : Provider). is_included parts.included v.id ≡ true) (sym same) i)))
          | inr later ↦ q d later y i
        ],
      )
      skip (failed x) n w = w
      skip out_of_fuel n w = w

  refused_override-none :
      (os : List String)
      → refused_override parts.providers os ≡ none
      → (id : String) → Elem id os
      → declares_singleton (by_id parts.providers id) ≡ true
  unfolding refused_override
  refused_override-none [] h id m = absurd m
  refused_override-none (o ∷ os) h id m =
      elim (Bool-cases (declares_singleton (by_id parts.providers o))) [
        | inl fine ↦ elim m [
          | inl same ↦ subst (λ v. declares_singleton (by_id parts.providers v) ≡ true) same fine
          | inr later ↦ refused_override-none os (rw fine at h) id later
        ]
        | inr bad ↦ absurd (cc (rw bad at h))
      ]

  refused_override-some :
      (os : List String) (id : String)
      → refused_override parts.providers os ≡ some id
      → Elem id os × (declares_singleton (by_id parts.providers id) ≡ false)
  unfolding refused_override
  refused_override-some [] id h = absurd (cc)
  refused_override-some (o ∷ os) id h =
      elim (Bool-cases (declares_singleton (by_id parts.providers o))) [
        | inl fine ↦ let (m, n) = refused_override-some os id (rw fine at h) in (inr m, n)
        | inr bad ↦
            let same : o ≡ id = of_some (rw bad at h) in
            (inl same, subst (λ v. declares_singleton (by_id parts.providers v) ≡ false) same bad)
      ]

  none_refused-Checked : refused_override parts.providers parts.overrides ≡ none → Checked parts
  none_refused-Checked h id p e over =
      subst (λ o. declares_singleton o ≡ true) (by_id-lookup parts id p e)
        (refused_override-none parts.overrides h id (Elem-of_has id parts.overrides over))

  -- What the construction of the graph tells.
  abbrev pub Verdict : List Provider → Result Unit → Type 0
  Verdict sorted (done u s) =
      IsOrdered parts s × Complete sorted (ids_of s.participants) × (s.stack ≡ [])
  Verdict sorted (failed e) = Why parts e
  Verdict sorted out_of_fuel = ⊥

  Verdict-of_Ends :
      (sorted : List Provider) (r : Result Unit)
      → Ends parts no_instances (Complete sorted) r
      → Verdict sorted r
  Verdict-of_Ends sorted (done u s) (f, c) = (f.ordered, c, f.same_stack)
  Verdict-of_Ends sorted (failed e) w = w
  Verdict-of_Ends sorted out_of_fuel w = w

  -- The construction ends. If there is no error, each participant stands once and behind all the
  -- singletons that its dependencies lead to, and every included singleton is a participant; every
  -- error is right: a cyclic provider depends on itself, an unavailable dependency is used and unknown,
  -- a missing constructor is not registered, a constructor that throws does, and a refused override is
  -- of no declared singleton.
  pub construct_singleton_graph-Verdict :
      (sorted : List Provider) → Verdict sorted (construct_singleton_graph parts sorted)
  unfolding construct_singleton_graph
  construct_singleton_graph-Verdict sorted =
      go (refused_override parts.providers parts.overrides) refl
    where
      go :
          (o : Option String)
          → refused_override parts.providers parts.overrides ≡ o
          → Verdict sorted (unless_refused o (construct_each parts sorted no_instances))
      go (some id) h = refused_override-some parts.overrides id h
      go none h =
          Verdict-of_Ends sorted _
            (construct_each-Ends sorted no_instances (none_refused-Checked h) refl (tt, tt))

  -- If every override is of a singleton, every provider has a constructor, none throws, no provider
  -- depends on itself and every dependency is known, the construction succeeds, in order and complete.
  pub construct_singleton_graph-done :
      (sorted : List Provider)
      → ((id : String)
          → Elem id parts.overrides
          → declares_singleton (by_id parts.providers id) ≡ true)
      → ((id : String) (p : Provider)
          → lookup parts id ≡ provided p
          → parts.has_constructor id ≡ true)
      → ((id : String) (args : List (Option Instance)) → parts.throws id args ≡ false)
      → ((id : String) → ¬ Depends parts id id)
      → ((id t : String) (p : Provider)
          → lookup parts id ≡ provided p
          → Targets t (used parts id p)
          → lookup parts t ≢ unknown)
      → (s : State) × (construct_singleton_graph parts sorted ≡ done tt s)
        × IsOrdered parts s
        × Complete sorted (ids_of s.participants)
  construct_singleton_graph-done sorted over registered calm acyclic known =
      succeed (construct_singleton_graph parts sorted) refl
        (construct_singleton_graph-Verdict sorted)
    where
      refute : (e : Failure) → ¬ Why parts e
      refute (undeclared_override id) (m, n) = cc (over id m)
      refute (missing_constructor id) ((p, e), n) = cc (registered id p e)
      refute (constructor_throws id) (args, y) = cc (calm id args)
      refute (cyclic id) c = acyclic id c
      refute (unavailable t id) (n, (p, e, m)) = known id t p e m n

      succeed :
          (r : Result Unit)
          → construct_singleton_graph parts sorted ≡ r
          → Verdict sorted r
          → (s : State) × (construct_singleton_graph parts sorted ≡ done tt s)
            × IsOrdered parts s
            × Complete sorted (ids_of s.participants)
      succeed (done u s) e (o, c, b) = (s, e, o, c)
      succeed (failed x) e w = absurd (refute x w)
      succeed out_of_fuel e w = absurd w
