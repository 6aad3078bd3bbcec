-- ===== src/Runtime/Settings/Laws.antt =====
-- A configuration holds a value of its declared kind for every property, or an issue tells why not.
use doxajs.Base.{
  String, true, false, not, Option, List, [], ◌∷◌, ◌++◌, ◌≡◌, ◌≢◌, inl, inr, refl, Among, All,
  All-mono, All-append, if-cases, not-true, not-false,
}
use doxajs.Js.{Fields}
use doxajs.Runtime.Settings.Values.{FitsAs, Settled, resolve-Settled}
use doxajs.Runtime.Settings.{
  Property, Configuration, Setting, Outcome, resolved, refused, Platform, Issue, Gathering,
  unregistered, gathered, Materialized, no_constructor, invalid, configured,
  resolve_configuration_value, keep, source_of, materialize_properties, includes, gather,
  materialize_each, conclude, materialize_configurations,
}

module _ {N : Type 0} (env : Platform N) (overrides : String → Fields N ⊥)
    (included : Option (List String)) where
  -- The values of the properties, in their order.
  abbrev pub Fitting : Configuration N → List (Property N) → List (String × Setting N) → Type 0
  Fitting c [] [] = Unit
  Fitting c (p ∷ ps) ((n, r) ∷ i) =
      (n ≡ p.name)
      × FitsAs env p p.kind r
      × (resolve_configuration_value env p (source_of env (overrides c.id) p) ≡ resolved r)
      × Fitting c ps i
  Fitting c ps i = ⊥

  -- The included configurations, in their order.
  pub data Made : List (Configuration N) → List (String × List (String × Setting N)) → Type 0 where
    nothing : Made [] []
    left_out :
        {c : Configuration N} {cs : List (Configuration N)}
        {is : List (String × List (String × Setting N))}
        → includes included c.id ≡ false
        → Made cs is
        → Made (c ∷ cs) is
    made :
        {c : Configuration N} {cs : List (Configuration N)}
        {is : List (String × List (String × Setting N))}
        → (i : List (String × Setting N)) → includes included c.id ≡ true
        → Fitting c c.properties i
        → Made cs is
        → Made (c ∷ cs) ((c.id, i) ∷ is)

  -- The property whose value is refused.
  abbrev pub Refused : Configuration N → List (Property N) → Issue → Type 0
  Refused c ps q =
      (p : Property N) × Among p ps
      × (q.configuration ≡ c.name)
      × (q.property ≡ p.name)
      × (resolve_configuration_value env p (source_of env (overrides c.id) p) ≡ refused q.why)

  abbrev pub Explained : List (Configuration N) → Issue → Type 0
  Explained cs q =
      (c : Configuration N) × Among c cs
      × (includes included c.id ≡ true)
      × Refused c c.properties q

  abbrev Kept :
      Configuration N → List (Property N) → List (String × Setting N) × List Issue → Type 0
  Kept c ps m = (m.1 ≡ [] → Fitting c ps m.0) × All (Refused c ps) m.1

  keep-Kept :
      (c : Configuration N) (p : Property N) (ps : List (Property N)) (o : Outcome N)
      (m : List (String × Setting N) × List Issue)
      → resolve_configuration_value env p (source_of env (overrides c.id) p) ≡ o
      → Settled env p p.kind o
      → Kept c ps m
      → Kept c (p ∷ ps) (keep c p o m)
  keep-Kept c p ps (resolved r) (i, q) e fits (good, bad) = (
    λ h. (refl, fits, e, good h),
    All-mono (Refused c ps) (Refused c (p ∷ ps)) q (λ x (p', m, a, b, c'). (p', inr m, a, b, c'))
        bad,
  )
  keep-Kept c p ps (refused w) (i, q) e fits (good, bad) = (
    λ h. absurd (cc),
    (
      (p, inl refl, refl, refl, e),
      All-mono (Refused c ps) (Refused c (p ∷ ps)) q (λ x (p', m, a, b, c'). (p', inr m, a, b, c'))
          bad,
    ),
  )

  materialize_properties-Kept :
      (c : Configuration N) (ps : List (Property N))
      → Kept c ps (materialize_properties env (overrides c.id) c ps)
  unfolding materialize_properties
  materialize_properties-Kept c [] = (λ h. tt, tt)
  materialize_properties-Kept c (p ∷ ps) =
      keep-Kept c p ps _ _ refl (resolve-Settled env p (source_of env (overrides c.id) p))
        (materialize_properties-Kept c ps)

  abbrev pub Told : List (Configuration N) → Gathering N → Type 0
  Told cs (unregistered id) =
      (c : Configuration N) × Among c cs
      × (c.id ≡ id)
      × (includes included id ≡ true)
      × (env.has_constructor id ≡ false)
  Told cs (gathered is qs) = (qs ≡ [] → Made cs is) × All (Explained cs) qs

  skip-Told :
      (c : Configuration N) (cs : List (Configuration N)) (g : Gathering N)
      → includes included c.id ≡ false
      → Told cs g
      → Told (c ∷ cs) g
  skip-Told c cs (unregistered id) n (d, m, e, i, r) = (d, inr m, e, i, r)
  skip-Told c cs (gathered is qs) n (good, bad) = (
    λ h. left_out n (good h),
    All-mono (Explained cs) (Explained (c ∷ cs)) qs (λ x (d, m, i, r). (d, inr m, i, r)) bad,
  )

  nil-append : (q qs : List Issue) → (q ++ qs) ≡ [] → (q ≡ []) × (qs ≡ [])
  nil-append [] qs h = (refl, h)
  nil-append (x ∷ q) qs h = absurd (cc)

  gather-Told :
      (c : Configuration N) (cs : List (Configuration N))
      (m : List (String × Setting N) × List Issue) (g : Gathering N)
      → includes included c.id ≡ true
      → Kept c c.properties m
      → Told cs g
      → Told (c ∷ cs) (gather c.id m g)
  gather-Told c cs (i, q) (unregistered id) y k (d, n, e, j, r) = (d, inr n, e, j, r)
  gather-Told c cs (i, q) (gathered is qs) y (fine, sad) (good, bad) = (
    λ h. let (a, b) = nil-append q qs h in made i y (fine a) (good b),
    All-append (Explained (c ∷ cs)) q qs
        (All-mono (Refused c c.properties) (Explained (c ∷ cs)) q (λ x r. (c, inl refl, y, r)) sad)
        (All-mono (Explained cs) (Explained (c ∷ cs)) qs (λ x (d, n, j, r). (d, inr n, j, r)) bad),
  )

  materialize_each-Told :
      (cs : List (Configuration N)) → Told cs (materialize_each env overrides included cs)
  unfolding materialize_each
  materialize_each-Told [] = (λ h. nothing, tt)
  materialize_each-Told (c ∷ cs) =
      let later = materialize_each-Told cs in
      if-cases (Told (c ∷ cs)) (not (includes included c.id)) _ _
        (λ n. skip-Told c cs _ (not-true _ n) later)
        (λ y.
          if-cases (Told (c ∷ cs)) (not (env.has_constructor c.id)) _ _
            (λ n. (c, inl refl, refl, not-false _ y, not-true _ n))
            (λ h.
              gather-Told c cs _ _ (not-false _ y) (materialize_properties-Kept c c.properties)
                later))

  -- What the outcome tells: every included configuration is made and each of its properties has a
  -- value that fits it; or there are issues, each of a property whose value is refused; or the
  -- registry misses an included configuration.
  abbrev pub Verdict : List (Configuration N) → Materialized N → Type 0
  Verdict cs (no_constructor id) = Told cs (unregistered id)
  Verdict cs (invalid qs) = (qs ≢ []) × All (Explained cs) qs
  Verdict cs (configured is) = Made cs is

  conclude-Verdict :
      (cs : List (Configuration N)) (g : Gathering N) → Told cs g → Verdict cs (conclude g)
  conclude-Verdict cs (unregistered id) t = t
  conclude-Verdict cs (gathered is []) (good, bad) = good refl
  conclude-Verdict cs (gathered is (q ∷ qs)) (good, bad) = (λ e. absurd (cc), bad)

  -- The outcome is right: the configurations hold, in order, a value for every property of each that
  -- is included, which fits the property's kind; or the issues name properties whose values are
  -- refused, and there is one; or an included configuration has no constructor.
  pub materialize_configurations-Verdict :
      (cs : List (Configuration N))
      → Verdict cs (materialize_configurations env overrides included cs)
  unfolding materialize_configurations
  materialize_configurations-Verdict cs = conclude-Verdict cs _ (materialize_each-Told cs)
