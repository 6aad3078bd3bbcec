-- ===== src/Base/Keys.antt =====
-- Sets of text keys as lists: the test `has`, and membership as a sum that can be taken apart.
use Prim.Native.Nat.{ℕ, suc, ◌≤◌, ◌<◌}
use Prim.Native.String.{String}
use mathlib.Core.Path.{◌≡◌, refl, sym, ◌∙◌, ap, subst}
use mathlib.Core.Logic.{◌⊎◌, inl, inr, ◌≢◌}
use mathlib.Core.Bool.{Bool, true, false, ◌||◌}
use mathlib.Core.List.{List, [], ◌∷◌}
use text.Mathlib.Text.{◌==◌}
use text.Mathlib.TextEquality.{eq_iff}
use native.Mathlib.Omega.{arith}
use doxajs.Base.Lists.{length}
use doxajs.Base.Tests.{if◌then◌else◌, Bool-cases}

-- `set.has(key)`
unfoldable pub has : String → List String → Bool
has k [] = false
has k (j ∷ js) = j == k || has k js

abbrev pub Elem : String → List String → Type 0
Elem k [] = ⊥
Elem k (j ∷ js) = (j ≡ k) ⊎ Elem k js

pub Elem-of_has : (k : String) (js : List String) → has k js ≡ true → Elem k js
unfolding has
Elem-of_has k [] h = absurd (cc)
Elem-of_has k (j ∷ js) h = elim (Bool-cases (j == k)) [
  | inl same ↦ inl ((eq_iff j k).0 same)
  | inr other ↦ inr (Elem-of_has k js (rw other at h))
]

pub has_of_Elem : (k : String) (js : List String) → Elem k js → has k js ≡ true
unfolding has
has_of_Elem k [] m = elim m [ ]
has_of_Elem k (j ∷ js) (inl e) = rw ((eq_iff j k).1 e)
has_of_Elem k (j ∷ js) (inr m) = elim (Bool-cases (j == k)) [
  | inl same ↦ rw same
  | inr other ↦ rw other (has_of_Elem k js m)
]

pub not-Elem-of_has : (k : String) (js : List String) → has k js ≡ false → ¬ Elem k js
not-Elem-of_has k js h m = cc (has_of_Elem k js m)

-- `set.delete(key)`: the set holds a key once, so the first occurrence is the only one.
unfoldable pub delete : String → List String → List String
delete k [] = []
delete k (j ∷ js) = let rest = delete k js in if j == k then js else j ∷ rest

pub delete-cons_self : (k : String) (js : List String) → delete k (k ∷ js) ≡ js
unfolding delete
delete-cons_self k js = rw ((eq_iff k k).1 refl)

-- Every key of the first set is in the second.
abbrev pub Within : List String → List String → Type 0
Within xs ys = (k : String) → Elem k xs → Elem k ys

abbrev pub Distinct : List String → Type 0
Distinct [] = Unit
Distinct (x ∷ xs) = (¬ Elem x xs) × Distinct xs

pub length-delete :
    (k : String) (js : List String) → Elem k js → suc (length (delete k js)) ≡ length js
unfolding delete
length-delete k [] m = elim m [ ]
length-delete k (j ∷ js) m = elim (Bool-cases (j == k)) [
  | inl same ↦ rw same
  | inr other ↦ elim m [
    | inl e ↦ cc ((eq_iff j k).1 e)
    | inr later ↦ rw other (ap suc (length-delete k js later))
  ]
]

pub Elem-delete : (k j : String) (js : List String) → Elem j js → j ≢ k → Elem j (delete k js)
unfolding delete
Elem-delete k j [] m ne = elim m [ ]
Elem-delete k j (i ∷ js) m ne = elim (Bool-cases (i == k)) [
  | inl same ↦
      rw same (elim m [ inl e ↦ absurd (ne (sym e ∙ (eq_iff i k).0 same)) | inr later ↦ later ])
  | inr other ↦ rw other (elim m [ inl e ↦ inl e | inr later ↦ inr (Elem-delete k j js later ne) ])
]

-- A set of keys that lies in another has at most its size.
pub length_of_Within : (xs ys : List String) → Distinct xs → Within xs ys → length xs ≤ length ys
length_of_Within [] ys d w = omega arith
length_of_Within (x ∷ xs) ys (fresh, d) w =
    let smaller =
      length_of_Within xs (delete x ys) d
        (λ k m. Elem-delete x k ys (w k (inr m)) (λ e. fresh (subst (λ i. Elem i xs) e m))) in
    omega (arith, length-delete x ys (w x (inl refl)))

-- How many entries of a list a set does not hold.
pub missing : List String → List String → ℕ
missing [] set = 0
missing (i ∷ is) set = let rest = missing is set in if has i set then rest else suc rest

pub missing-nil : (is : List String) → missing is [] ≡ length is
unfolding missing has
missing-nil [] = refl
missing-nil (i ∷ is) = ap suc (missing-nil is)

-- A larger set misses at most as much.
pub missing_mono : (is xs ys : List String) → Within xs ys → missing is ys ≤ missing is xs
unfolding missing
missing_mono [] xs ys w = omega arith
missing_mono (i ∷ is) xs ys w = elim (Bool-cases (has i xs)) [
  | inl old ↦ rw (old, has_of_Elem i ys (w i (Elem-of_has i xs old))) (missing_mono is xs ys w)
  | inr new ↦ elim (Bool-cases (has i ys)) [
    | inl added ↦ rw (new, added) (omega (arith, missing_mono is xs ys w))
    | inr absent ↦ rw (new, absent) (omega (arith, missing_mono is xs ys w))
  ]
]

-- A set that gains an entry of the list misses less.
pub missing-cons :
    (is xs : List String) (k : String)
    → Elem k is
    → ¬ Elem k xs
    → missing is (k ∷ xs) < missing is xs
unfolding missing
missing-cons [] xs k m new = elim m [ ]
missing-cons (i ∷ is) xs k m new = elim (Bool-cases (has i xs)) [
  | inl old ↦
      rw (old, has_of_Elem i (k ∷ xs) (inr (Elem-of_has i xs old)))
        (elim m [
          | inl e ↦ absurd (new (subst (λ j. Elem j xs) e (Elem-of_has i xs old)))
          | inr later ↦ missing-cons is xs k later new
        ])
  | inr fresh ↦ elim (Bool-cases (has i (k ∷ xs))) [
    | inl added ↦ rw (fresh, added) (omega (arith, missing_mono is xs (k ∷ xs) (λ j h. inr h)))
    | inr absent ↦ elim m [
      | inl e ↦ absurd (not-Elem-of_has i (k ∷ xs) absent (inl (sym e)))
      | inr later ↦ rw (fresh, absent) (omega (arith, missing-cons is xs k later new))
    ]
  ]
]
