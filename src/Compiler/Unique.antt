-- ===== src/Compiler/Unique.antt =====
-- `assertUnique` of packages/compiler/src/manifest-validation.ts.
use doxajs.Base.{
  String, Option, none, some, List, [], ◌∷◌, ◌≡◌, ◌↔◌, refl, sym, subst, has, Elem, Distinct,
  Elem-of_has, not-Elem-of_has, inl, inr, Bool-cases, if◌then◌else◌, map,
}

module _ {ℓ} {T : Type ℓ} (identity : T → String) where
  -- The loop: `some id` is the error "Duplicate …: id".
  assert_unique_from : List String → List T → Option String
  assert_unique_from seen [] = none
  assert_unique_from seen (item ∷ items) =
      let id = identity item in
      let rest = assert_unique_from (id ∷ seen) items in if has id seen then some id else rest

  unfoldable pub assert_unique : List T → Option String
  unfolding assert_unique_from has
  assert_unique items = assert_unique_from [] items

  -- What the loop has still to find: nothing new is in `seen`, and nothing comes twice.
  abbrev Fresh : List String → List T → Type 0
  Fresh seen [] = Unit
  Fresh seen (item ∷ items) = (¬ Elem (identity item) seen) × Fresh (identity item ∷ seen) items

  assert_unique_from-Fresh :
      (seen : List String) (items : List T)
      → assert_unique_from seen items ≡ none
      → Fresh seen items
  unfolding assert_unique_from has
  assert_unique_from-Fresh seen [] h = tt
  assert_unique_from-Fresh seen (item ∷ items) h = elim (Bool-cases (has (identity item) seen)) [
    | inl dup ↦ absurd (cc (rw dup at h))
    | inr new ↦ (
      not-Elem-of_has _ _ new,
      assert_unique_from-Fresh (identity item ∷ seen) items (rw new at h),
    )
  ]

  Fresh-assert_unique_from :
      (seen : List String) (items : List T)
      → Fresh seen items
      → assert_unique_from seen items ≡ none
  unfolding assert_unique_from has
  Fresh-assert_unique_from seen [] h = refl
  Fresh-assert_unique_from seen (item ∷ items) (new, h) =
      elim (Bool-cases (has (identity item) seen)) [
        | inl dup ↦ absurd (new (Elem-of_has _ _ dup))
        | inr free ↦ rw free (Fresh-assert_unique_from (identity item ∷ seen) items h)
      ]

  -- No key of the items is in `seen`, and the keys of the items are distinct.
  Apart : List String → List T → Type 0
  Apart seen items = (k : String) → Elem k (map identity items) → ¬ Elem k seen

  Distinct-of_Fresh :
      (seen : List String) (items : List T)
      → Fresh seen items
      → Distinct (map identity items) × Apart seen items
  unfolding Apart
  Distinct-of_Fresh seen [] h = (tt, λ k m. absurd m)
  Distinct-of_Fresh seen (item ∷ items) (new, h) =
      let (d, apart) = Distinct-of_Fresh (identity item ∷ seen) items h in
      (
        (λ m. apart (identity item) m (inl refl), d),
        λ k m s. elim m [
          | inl e ↦ new (subst (λ i. Elem i seen) (sym e) s)
          | inr later ↦ apart k later (inr s)
        ],
      )

  Fresh-of_Distinct :
      (seen : List String) (items : List T)
      → Distinct (map identity items)
      → Apart seen items
      → Fresh seen items
  unfolding Apart
  Fresh-of_Distinct seen [] d a = tt
  Fresh-of_Distinct seen (item ∷ items) (fresh, d) a = (
    λ s. a (identity item) (inl refl) s,
    Fresh-of_Distinct (identity item ∷ seen) items d (λ k m s. elim s [
      | inl e ↦ fresh (subst (λ i. Elem i (map identity items)) (sym e) m)
      | inr old ↦ a k (inr m) old
    ]),
  )

  -- The check passes exactly when the identities of the items are pairwise different.
  pub assert_unique-none_iff :
      (items : List T) → (assert_unique items ≡ none) ↔ Distinct (map identity items)
  unfolding assert_unique Apart
  assert_unique-none_iff items = (
    λ h. (Distinct-of_Fresh [] items (assert_unique_from-Fresh [] items h)).0,
    λ d. Fresh-assert_unique_from [] items (Fresh-of_Distinct [] items d (λ k m s. absurd s)),
  )
