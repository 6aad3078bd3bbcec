-- ===== src/Cache/Views.antt =====
-- What the cache shows at a time, and how setting, removing and pruning change it.
use doxajs.Base.{
  ℕ, String, true, false, Option, none, some, List, [], ◌∷◌, ◌≡◌, refl, sym, ◌∙◌, subst, ◌≤◌,
  str_eq, eq_iff, Bool-cases, Option-cases, inl, inr, if◌then◌else◌, arith,
}
use doxajs.Cache.{Entry, Slot, lookup, set, remove, expired_at, expired, live_of, kept_entries}

not-same : (k j i : String) → str_eq i k ≡ false → i ≡ j → str_eq k j ≡ false
not-same k j i other same = elim (Bool-cases (str_eq k j)) [
  | inl h ↦ cc ((eq_iff i k).1 (same ∙ sym ((eq_iff k j).0 h)), other)
  | inr h ↦ h
]

expired_later :
    (now t : ℕ) (o : Option ℕ) → now ≤ t → expired_at now o ≡ true → expired_at t o ≡ true
expired_later now t none le h = absurd (cc)
expired_later now t (some e) le h = ground arith

module _ {N : Type 0} where
  -- The live entry of a key at a time.
  abbrev pub view : ℕ → String → List (Slot N) → Option (Entry N)
  view t k ss = live_of t (lookup k ss)

  pub lookup-set :
      (j k : String) (e : Entry N) (ss : List (Slot N))
      → lookup j (set k e ss) ≡ (if str_eq k j then some e else lookup j ss)
  unfolding lookup set
  lookup-set j k e [] = refl
  lookup-set j k e (s ∷ ss) = elim (Bool-cases (str_eq s.key k)) [
    | inl same ↦
        rw (same, (eq_iff s.key k).0 same)
          (elim (Bool-cases (str_eq k j)) [ inl h ↦ rw h refl | inr h ↦ rw h refl ])
    | inr other ↦ elim (Bool-cases (str_eq s.key j)) [
      | inl here ↦ rw (other, here, not-same k j s.key other ((eq_iff s.key j).0 here)) refl
      | inr there ↦ rw (other, there) (lookup-set j k e ss)
    ]
  ]

  pub lookup-remove :
      (j k : String) (ss : List (Slot N))
      → lookup j (remove k ss) ≡ (if str_eq k j then none else lookup j ss)
  unfolding lookup remove
  lookup-remove j k [] = elim (Bool-cases (str_eq k j)) [ inl h ↦ rw h refl | inr h ↦ rw h refl ]
  lookup-remove j k (s ∷ ss) = elim (Bool-cases (str_eq s.key k)) [
    | inl same ↦
        rw (same, lookup-remove j k ss, (eq_iff s.key k).0 same)
          (elim (Bool-cases (str_eq k j)) [ inl h ↦ rw h refl | inr h ↦ rw h refl ])
    | inr other ↦ elim (Bool-cases (str_eq s.key j)) [
      | inl here ↦ rw (other, here, not-same k j s.key other ((eq_iff s.key j).0 here)) refl
      | inr there ↦ rw (other, there) (lookup-remove j k ss)
    ]
  ]

  abbrev pub Unchanged : ℕ → List (Slot N) → List (Slot N) → Type 0
  Unchanged now ss after = (t : ℕ) (j : String) → now ≤ t → view t j after ≡ view t j ss

  abbrev pub Updated : ℕ → String → Entry N → List (Slot N) → List (Slot N) → Type 0
  Updated now k e ss after =
      (t : ℕ) (j : String)
      → now ≤ t
      → view t j after ≡ (if str_eq k j then live_of t (some e) else view t j ss)

  -- Deleting an expired entry is not seen from then on.
  pub kept_entries-Unchanged :
      (now : ℕ) (k : String) (ss : List (Slot N))
      → Unchanged now ss (kept_entries now k (lookup k ss) ss)
  kept_entries-Unchanged now k ss t j le = elim (Option-cases (lookup k ss)) [
    | inl absent ↦ rw absent refl
    | inr (e, here) ↦ elim (Bool-cases (expired now e)) [
      | inr fresh ↦ rw (here, fresh) refl
      | inl old ↦ elim (Bool-cases (str_eq k j)) [
        | inr other ↦ rw (here, old, lookup-remove j k ss, other) refl
        | inl same ↦
            let there : lookup j ss ≡ some e =
              subst (λ i. lookup i ss ≡ some e) ((eq_iff k j).0 same) here in
            rw
              (
                here,
                old,
                lookup-remove j k ss,
                same,
                there,
                expired_later now t e.expires_at le old,
              )
              refl
      ]
    ]
  ]

  pub set-Updated :
      (now : ℕ) (k : String) (e : Entry N) (ss after : List (Slot N))
      → Unchanged now ss after
      → Updated now k e ss (set k e after)
  set-Updated now k e ss after un t j le = elim (Bool-cases (str_eq k j)) [
    | inl same ↦ rw (lookup-set j k e after, same) refl
    | inr other ↦ rw (lookup-set j k e after, other) (un t j le)
  ]
