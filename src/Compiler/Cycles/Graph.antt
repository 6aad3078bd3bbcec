-- ===== src/Compiler/Cycles/Graph.antt =====
-- The dependency graph of the providers, with no reference to the walk.
use doxajs.Base.{
  String, suc, some, List, [], ◌∷◌, ◌≡◌, ◌⊎◌, inl, inr, map, Elem, length, ap, refl, str_eq, eq_iff,
  arith, Bool-cases, Option-cases,
}
use doxajs.Compiler.Manifest.{Provider, Dependency, target, by_id}

-- The ids that the dependencies name.
abbrev pub Targets : String → List Dependency → Type 0
Targets t [] = ⊥
Targets t (d ∷ ds) = (target d ≡ some t) ⊎ Targets t ds

abbrev pub Provided : List Provider → String → Type 0
Provided ps id = (p : Provider) × (by_id ps id ≡ some p)

-- The provider with the first id depends on a provider with the second.
pub record Edge (ps : List Provider) (a b : String) : Type 0 where
  pub owner : Provider
  pub found : by_id ps a ≡ some owner
  pub names : Targets b owner.dependencies
  pub known_target : Provided ps b

-- One or more edges lead from the first id to the second.
pub data Reaches (ps : List Provider) : String → String → Type 0 where
  one : {a b : String} → Edge ps a b → Reaches ps a b
  more : {a b : String} (c : String) → Edge ps a c → Reaches ps c b → Reaches ps a b

abbrev pub ids : List Provider → List String
ids ps = map (λ p. p.id) ps

pub length-ids : (ps : List Provider) → length (ids ps) ≡ length ps
length-ids [] = refl
length-ids (p ∷ ps) = ap suc (length-ids ps)

pub Elem-of_Provided : (ps : List Provider) (id : String) → Provided ps id → Elem id (ids ps)
unfolding by_id
Elem-of_Provided [] id (q, e) = absurd (cc)
Elem-of_Provided (p ∷ ps) id (q, e) = elim (Option-cases (by_id ps id)) [
  | inr (r, found) ↦ inr (Elem-of_Provided ps id (r, found))
  | inl missing ↦ elim (Bool-cases (str_eq p.id id)) [
    | inl same ↦ inl ((eq_iff p.id id).0 same)
    | inr other ↦ absurd (ground arith)
  ]
]

pub Provided-of_Elem : (ps : List Provider) (id : String) → Elem id (ids ps) → Provided ps id
unfolding by_id
Provided-of_Elem [] id m = elim m [ ]
Provided-of_Elem (p ∷ ps) id m = elim (Option-cases (by_id ps id)) [
  | inr (r, found) ↦ (r, rw found)
  | inl missing ↦ elim m [
    | inl e ↦ (p, rw (missing, (eq_iff p.id id).1 e))
    | inr later ↦ let (r, found) = Provided-of_Elem ps id later in absurd (cc)
  ]
]
