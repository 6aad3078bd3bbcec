-- ===== src/Runtime/Profile/Laws.antt =====
-- The providers and the configurations of the model reader are those it needs.
use doxajs.Base.{
  String, Option, none, some, List, [], ◌∷◌, ◌≡◌, ◌⊎◌, inl, inr, refl, sym, ap, subst, ◌∙◌, has,
  Elem, Elem-of_has, has_of_Elem, if-cases,
}
use doxajs.Compiler.Manifest.{Provider, Dependency, target}
use doxajs.Compiler.Cycles.Graph.{Targets}
use doxajs.Runtime.Profile.{
  only, model_reader, selected, select_from, transaction_provider, provider_ids_for_profile,
  add_target, add_configurations, add_provided, configuration_ids_for_providers,
}
use doxajs.Runtime.Profile.Closure.{Needs, include-Needs}

-- The model reader boots exactly the providers that the first one with transactions needs, itself
-- included.
pub provider_ids_for_profile-Needs :
    (ps : List Provider) (p : Provider)
    → transaction_provider ps ≡ some p
    → (set : List String) × (provider_ids_for_profile ps model_reader ≡ only set)
      × ((k : String) → (Elem k set → Needs ps p.id k) × (Needs ps p.id k → Elem k set))
unfolding provider_ids_for_profile
provider_ids_for_profile-Needs ps p e =
    let (set, found, same) = include-Needs ps p.id in
    (set, ap (select_from ps) e ∙ ap selected found, same)

abbrev Listed : Provider → List Provider → Type 0
Listed p [] = ⊥
Listed p (q ∷ qs) = (q ≡ p) ⊎ Listed p qs

-- An id that a set gains, or had before.
abbrev Gains : List String → List String → (String → Type 0) → Type 0
Gains xs ys P = (k : String) → (Elem k ys → Elem k xs ⊎ P k) × (Elem k xs ⊎ P k → Elem k ys)

then_gains :
    (xs ys zs : List String) (P Q R : String → Type 0)
    → Gains xs ys P
    → Gains ys zs Q
    → ((k : String) → R k → P k ⊎ Q k)
    → ((k : String) → P k ⊎ Q k → R k)
    → Gains xs zs R
then_gains xs ys zs P Q R g h split join k = (
  λ m. elim ((h k).0 m) [
    | inr q ↦ inr (join k (inr q))
    | inl y ↦ elim ((g k).0 y) [ inl x ↦ inl x | inr p ↦ inr (join k (inl p)) ]
  ],
  λ m. elim m [
    | inl x ↦ (h k).1 (inl ((g k).1 (inl x)))
    | inr r ↦ elim (split k r) [ inl p ↦ (h k).1 (inl ((g k).1 (inr p))) | inr q ↦ (h k).1 (inr q) ]
  ],
)

gains_nothing : (xs : List String) (P : String → Type 0) → ((k : String) → ¬ P k) → Gains xs xs P
gains_nothing xs P n k = (λ m. inl m, λ m. elim m [ inl x ↦ x | inr p ↦ absurd (n k p) ])

module _ (ids : List String) where
  -- The configuration ids that the dependencies name.
  abbrev Named : List Dependency → String → Type 0
  Named ds k = Elem k ids × Targets k ds

  add_target-Gains :
      (o : Option String) (xs : List String)
      → Gains xs (add_target ids o xs) (λ k. Elem k ids × (o ≡ some k))
  add_target-Gains none xs =
      gains_nothing xs (λ k. Elem k ids × (none ≡ some k)) (λ k (i, e). absurd (cc))
  add_target-Gains (some t) xs =
      if-cases (λ ys. Gains xs ys (λ k. Elem k ids × (some t ≡ some k))) (has t ids) _ _
        (λ h k. (
          λ m. elim m [
            | inl same ↦ inr (subst (λ j. Elem j ids) same (Elem-of_has t ids h), ap some same)
            | inr x ↦ inl x
          ],
          λ m. elim m [ inl x ↦ inr x | inr (i, e) ↦ inl (cc) ],
        ))
        (λ h.
          gains_nothing xs (λ k. Elem k ids × (some t ≡ some k))
            (λ k (i, e). absurd (cc (has_of_Elem k ids i))))

  add_configurations-Gains :
      (ds : List Dependency) (xs : List String) → Gains xs (add_configurations ids ds xs) (Named ds)
  unfolding add_configurations
  add_configurations-Gains [] xs = gains_nothing xs (Named []) (λ k (i, m). m)
  add_configurations-Gains (d ∷ ds) xs =
      then_gains xs (add_target ids (target d) xs) _ (λ k. Elem k ids × (target d ≡ some k))
        (Named ds) (Named (d ∷ ds)) (add_target-Gains (target d) xs)
        (add_configurations-Gains ds (add_target ids (target d) xs))
        (λ k (i, m). elim m [ inl e ↦ inl (i, e) | inr later ↦ inr (i, later) ])
        (λ k m. elim m [ inl (i, e) ↦ (i, inl e) | inr (i, later) ↦ (i, inr later) ])

  -- One of the included providers has the configuration among its dependencies.
  abbrev pub Wanted : List String → List Provider → String → Type 0
  Wanted providers ps k =
      (p : Provider) × Listed p ps × Elem p.id providers × Named p.dependencies k

  wanted_now :
      (providers : List String) (p : Provider) (ps : List Provider) (k : String)
      → Wanted providers (p ∷ ps) k
      → (Elem p.id providers × Named p.dependencies k) ⊎ Wanted providers ps k
  wanted_now providers p ps k (q, inr l, m, n) = inr (q, l, m, n)
  wanted_now providers p ps k (q, inl e, m, n) =
      inl (subst (λ (r : Provider). Elem r.id providers × Named r.dependencies k) (sym e) (m, n))

  add_provided-Gains :
      (providers : List String) (ps : List Provider) (xs : List String)
      → Gains xs (add_provided ids providers ps xs) (Wanted providers ps)
  unfolding add_provided
  add_provided-Gains providers [] xs = gains_nothing xs (Wanted providers []) (λ k (q, l, m, n). l)
  add_provided-Gains providers (p ∷ ps) xs =
      let now : String → Type 0 = λ k. Elem p.id providers × Named p.dependencies k in
      then_gains xs _ _ now (Wanted providers ps) (Wanted providers (p ∷ ps))
        (if-cases (λ ys. Gains xs ys now) (has p.id providers)
          (add_configurations ids p.dependencies xs) xs
          (λ h k.
            let g = add_configurations-Gains p.dependencies xs k in
            let here : Elem p.id providers = Elem-of_has p.id providers h in
            (
              λ m. elim (g.0 m) [ inl x ↦ inl x | inr n ↦ inr (here, n) ],
              λ m. elim m [ inl x ↦ g.1 (inl x) | inr (i, n) ↦ g.1 (inr n) ],
            ))
          (λ h. gains_nothing xs now (λ k (i, n). cc (has_of_Elem p.id providers i))))
        (add_provided-Gains providers ps _) (wanted_now providers p ps)
        (λ k m. elim m [ inl (i, n) ↦ (p, inl refl, i, n) | inr (q, l, i, n) ↦ (q, inr l, i, n) ])

-- A configuration is made for the model reader exactly if one of its providers depends on it.
pub configuration_ids_for_providers-Wanted :
    (ps : List Provider) (ids providers : List String)
    → (set : List String) × (configuration_ids_for_providers ps ids (some providers) ≡ some set)
      × ((k : String)
          → (Elem k set → Wanted ids providers ps k) × (Wanted ids providers ps k → Elem k set))
unfolding configuration_ids_for_providers
configuration_ids_for_providers-Wanted ps ids providers = (
  add_provided ids providers ps [],
  refl,
  λ k.
      let g = add_provided-Gains ids providers ps [] k in
      (λ m. elim (g.0 m) [ inl nothing ↦ absurd nothing | inr w ↦ w ], λ w. g.1 (inr w)),
)
