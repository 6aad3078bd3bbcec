-- ===== src/Runtime/Profile/Closure.antt =====
-- `include` adds what the provider needs, and nothing else.
use doxajs.Base.{
  String, ℕ, zero, suc, ◌<◌, Option, none, some, List, [], ◌∷◌, ◌≡◌, ◌⊎◌, inl, inr, refl, sym, ap,
  subst, ◌∙◌, ◌>>=?◌, has, Elem, Within, length, missing, missing_mono, missing-cons, missing-nil,
  arith, Elem-of_has, not-Elem-of_has, Bool-cases, Option-cases,
}
use doxajs.Compiler.Manifest.{Provider, Dependency, target, by_id}
use doxajs.Compiler.Cycles.Graph.{Targets, ids, length-ids, Elem-of_Provided}
use doxajs.Runtime.Profile.{include_each, include_id}

-- From the first id the second, of a provider, is reached by zero or more dependencies.
pub data Needs (ps : List Provider) : String → String → Type 0 where
  itself : {id : String} (p : Provider) → by_id ps id ≡ some p → Needs ps id id
  through :
      {id k : String} (p : Provider) (t : String)
      → by_id ps id ≡ some p
      → Targets t p.dependencies
      → Needs ps t k
      → Needs ps id k

abbrev Known : List Provider → String → Type 0
Known ps id = (p : Provider) × (by_id ps id ≡ some p)

-- The targets of the id's provider that are providers are in the set.
abbrev Closed : List Provider → List String → String → Type 0
Closed ps set id =
    (p : Provider) (t : String)
    → by_id ps id ≡ some p
    → Targets t p.dependencies
    → Known ps t
    → Elem t set

-- A call that starts with the set `xs` and is to include the ids in `Wanted`.
data Answer (ps : List Provider) (xs : List String) (Wanted : String → Type 0)
    : Option (List String) → Type 0 where
  covered :
      (ys : List String)
      → Within xs ys
      → ((t : String) → Wanted t → Known ps t → Elem t ys)
      → ((v : String)
          → Elem v ys
          → Elem v xs ⊎ (Closed ps ys v × ((t : String) × Wanted t × Needs ps t v)))
      → Answer ps xs Wanted (some ys)

bind-Answer :
    (ps : List Provider) (xs : List String) (P Q R : String → Type 0) (o : Option (List String))
    (k : List String → Option (List String))
    → Answer ps xs P o
    → ((ys : List String) → Within xs ys → Answer ps ys Q (k ys))
    → ((t : String) → R t → P t ⊎ Q t)
    → ((t : String) → P t ⊎ Q t → R t)
    → Answer ps xs R (o >>=? k)
bind-Answer ps xs P Q R o k (covered ys w g c) next split join = extend (k ys) (next ys w)
  where
    extend : (r : Option (List String)) → Answer ps ys Q r → Answer ps xs R r
    extend r (covered zs w' g' c') =
        covered zs (λ t m. w' t (w t m))
          (λ t r' n. elim (split t r') [ inl p ↦ w' t (g t p n) | inr q ↦ g' t q n ])
          (λ v m. elim (c' v m) [
            | inl old ↦ elim (c v old) [
              | inl older ↦ inl older
              | inr (closed, (t, p, l)) ↦
                  inr (λ q u e n kn. w' u (closed q u e n kn), (t, join t (inl p), l))
            ]
            | inr (closed, (t, q, l)) ↦ inr (closed, (t, join t (inr q), l))
          ])

-- A dependency with no target.
skip-Answer :
    (ps : List Provider) (xs : List String) (d : Dependency) (ds : List Dependency)
    (o : Option (List String))
    → target d ≡ none
    → Answer ps xs (λ t. Targets t ds) o
    → Answer ps xs (λ t. (target d ≡ some t) ⊎ Targets t ds) o
skip-Answer ps xs d ds o e (covered ys w g c) =
    covered ys w (λ t m n. elim m [ inl named ↦ absurd (cc) | inr later ↦ g t later n ])
      (λ v m. elim (c v m) [
        | inl old ↦ inl old
        | inr (closed, (t, p, l)) ↦ inr (closed, (t, inr p, l))
      ])

module _ (ps : List Provider) (fuel : ℕ) (step : String → List String → Option (List String)) where
  include_each-none :
      (d : Dependency) (ds : List Dependency) (xs : List String)
      → target d ≡ none
      → include_each step (d ∷ ds) xs ≡ include_each step ds xs
  unfolding include_each
  include_each-none d ds xs e = rw (e, include_each)

  include_each-some :
      (d : Dependency) (ds : List Dependency) (xs : List String) (t : String)
      → target d ≡ some t
      → include_each step (d ∷ ds) xs ≡ (step t xs >>=? λ v. include_each step ds v)
  unfolding include_each
  include_each-some d ds xs t e = rw (e, include_each)

  include_each-Answer :
      (ds : List Dependency) (xs : List String)
      → missing (ids ps) xs < fuel
      → ((t : String) (ys : List String)
          → missing (ids ps) ys < fuel
          → Answer ps ys (λ k. t ≡ k) (step t ys))
      → Answer ps xs (λ t. Targets t ds) (include_each step ds xs)
  unfolding include_each
  include_each-Answer [] xs enough call = covered xs (λ t m. m) (λ t m n. elim m [ ]) (λ v m. inl m)
  include_each-Answer (d ∷ ds) xs enough call = elim (Option-cases (target d)) [
    | inl missing_target ↦
        subst (Answer ps xs (λ t. Targets t (d ∷ ds)))
          (sym (include_each-none d ds xs missing_target))
          (skip-Answer ps xs d ds _ missing_target (include_each-Answer ds xs enough call))
    | inr (t, e) ↦
        subst (Answer ps xs (λ k. Targets k (d ∷ ds))) (sym (include_each-some d ds xs t e)) (
          bind-Answer ps xs (λ k. t ≡ k) (λ k. Targets k ds) (λ k. Targets k (d ∷ ds)) (step t xs)
            (λ v. include_each step ds v) (call t xs enough)
            (λ ys w. include_each-Answer ds ys (omega (arith, missing_mono (ids ps) xs ys w)) call)
            (λ k m. elim m [ inl named ↦ inl (cc) | inr later ↦ inr later ])
            (λ k m. elim m [ inl same ↦ inl (e ∙ ap some same) | inr later ↦ inr later ]))
  ]

-- An id that is added before its dependencies are included.
add-Answer :
    (ps : List Provider) (xs : List String) (id : String) (p : Provider) (o : Option (List String))
    → by_id ps id ≡ some p
    → Answer ps (id ∷ xs) (λ t. Targets t p.dependencies) o
    → Answer ps xs (λ k. id ≡ k) o
add-Answer ps xs id p o e (covered ys w g c) =
    covered ys (λ t m. w t (inr m)) (λ t same n. w t (inl same))
      (λ v m. elim (c v m) [
        | inr (closed, (t, n, l)) ↦ inr (closed, (id, refl, through p t e n l))
        | inl old ↦ elim old [
          | inr older ↦ inl older
          | inl same ↦ inr (
            subst (Closed ps ys) same closed_id,
            (id, refl, subst (Needs ps id) same (itself p e)),
          )
        ]
      ])
  where
    closed_id : Closed ps ys id
    closed_id q t e' n known =
        g t (subst (λ (r : Provider). Targets t r.dependencies) {x = q} {y = p} (cc) n) known

include-Answer :
    (ps : List Provider) (fuel : ℕ) (id : String) (xs : List String)
    → missing (ids ps) xs < fuel
    → Answer ps xs (λ k. id ≡ k) (include_id ps fuel id xs)
unfolding include_id
include-Answer ps zero id xs enough = absurd (omega arith)
include-Answer ps (suc fuel) id xs enough = elim (Bool-cases (has id xs)) [
  | inl old ↦ rw old (
      covered xs (λ t m. m) (λ t same n. subst (λ k. Elem k xs) same (Elem-of_has id xs old))
        (λ v m. inl m))
  | inr new ↦ elim (Option-cases (by_id ps id)) [
    | inl unknown ↦
        rw (new, unknown)
          (covered xs (λ t m. m)
            (λ t same (q, e). absurd (cc (subst (λ k. by_id ps k ≡ none) same unknown)))
            (λ v m. inl m))
    | inr (p, e) ↦
        rw (new, e)
          (add-Answer ps xs id p _ e (
            include_each-Answer ps fuel (λ t v. include_id ps fuel t v) p.dependencies (id ∷ xs)
              (omega (
                arith,
                missing-cons (ids ps) xs id (Elem-of_Provided ps id (p, e))
                    (not-Elem-of_has id xs new),
              ))
              (λ t ys fits. include-Answer ps fuel t ys fits)))
  ]
]

-- A closed set that holds an id holds what the id needs.
Elem-of_Needs :
    (ps : List Provider) (ys : List String) (id k : String)
    → ((v : String) → Elem v ys → Closed ps ys v)
    → (Known ps id → Elem id ys)
    → Needs ps id k
    → Elem k ys
Elem-of_Needs ps ys id k c m (itself p e) = m (p, e)
Elem-of_Needs ps ys id k c m (through p t e named l) =
    Elem-of_Needs ps ys t k c (λ known. c id (m (p, e)) p t e named known) l

pub include-Needs :
    (ps : List Provider) (id : String)
    → (ys : List String) × (include_id ps (suc (length ps)) id [] ≡ some ys)
      × ((k : String) → (Elem k ys → Needs ps id k) × (Needs ps id k → Elem k ys))
include-Needs ps id =
    read _ refl (
      include-Answer ps (suc (length ps)) id []
        (omega (arith, missing-nil (ids ps), length-ids ps)))
  where
    read :
        (o : Option (List String))
        → include_id ps (suc (length ps)) id [] ≡ o
        → Answer ps [] (λ k. id ≡ k) o
        → (ys : List String) × (include_id ps (suc (length ps)) id [] ≡ some ys)
          × ((k : String) → (Elem k ys → Needs ps id k) × (Needs ps id k → Elem k ys))
    read o e (covered ys w g c) = (
      ys,
      e,
      λ k. (
        λ m. elim (c k m) [
          | inl nothing ↦ absurd nothing
          | inr (closed, (t, same, l)) ↦ subst (λ u. Needs ps u k) (sym same) l
        ],
        λ l.
            Elem-of_Needs ps ys id k
              (λ v m. elim (c v m) [ inl nothing ↦ absurd nothing | inr (closed, rest) ↦ closed ])
              (λ known. g id refl known) l,
      ),
    )
