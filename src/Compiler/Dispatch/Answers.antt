-- ===== src/Compiler/Dispatch/Answers.antt =====
-- What the walk of one root answers, and how answers are put together.
use doxajs.Base.{
  String, ℕ, ◌<◌, Bool, none, some, List, [], ◌∷◌, ◌++◌, ◌≡◌, ◌⊎◌, inl, inr, sym, ap, subst, ◌∙◌,
  Elem, Within, missing, missing_mono, arith, Option-cases,
}
use doxajs.Compiler.Manifest.{Provider, Dependency, Capability, target, by_id}
use doxajs.Compiler.Cycles.Graph.{Targets, ids}
use doxajs.Compiler.Dispatch.{
  Outcome, passed, nested_dispatch, mutable_infrastructure, ◌>>=◌, action_bus, forbidden_capability,
  visit_dependencies,
}

-- The ids behind the first one follow its dependencies to the last.
pub data Runs (ps : List Provider) : String → List String → String → Type 0 where
  here : {t : String} → Runs ps t [] t
  onward :
      {t u last : String} {rest : List String} (p : Provider)
      → by_id ps t ≡ some p
      → Targets u p.dependencies
      → Runs ps u rest last
      → Runs ps t (u ∷ rest) last

-- The id is the action bus, or for a read-only root a provider with a forbidden capability.
abbrev pub IsStop : List Provider → Bool → String → Type 0
IsStop ps read_only id =
    (id ≡ action_bus)
    ⊎ ((p : Provider) × (c : Capability) × (by_id ps id ≡ some p)
        × (forbidden_capability read_only p.capabilities ≡ some c))

-- A path of an error: what came before, then a run to where the walk stops.
pub record Stops (ps : List Provider) (before path : List String) (from last : String)
    : Type 0 where
  pub rest : List String
  pub split : path ≡ before ++ from ∷ rest
  pub run : Runs ps from rest last

-- The walk may pass the id, and its targets are in the set.
pub record IsClosed (ps : List Provider) (read_only : Bool) (set : List String) (id : String)
    : Type 0 where
  pub clean : ¬ IsStop ps read_only id
  pub inside :
      (p : Provider) (t : String) → by_id ps id ≡ some p → Targets t p.dependencies → Elem t set

IsClosed-mono :
    (ps : List Provider) (ro : Bool) (xs ys : List String) (id : String)
    → Within xs ys
    → IsClosed ps ro xs id
    → IsClosed ps ro ys id
IsClosed-mono ps ro xs ys id w c = record {
  clean = c.clean;
  inside = λ p t e m. w t (c.inside p t e m);
}

-- The answer of a walk below the path `before` that starts with the set `xs` and is to cover the
-- ids in `Wanted`.
pub data Answer (ps : List Provider) (ro : Bool) (before : List String) (xs : List String)
    (Wanted : String → Type 0) : Outcome → Type 0 where
  bus :
      (path : List String) (t : String)
      → Wanted t
      → Stops ps before path t action_bus
      → Answer ps ro before xs Wanted (nested_dispatch path)
  barred :
      (path : List String) (t last : String) (p : Provider) (c : Capability)
      → Wanted t
      → Stops ps before path t last
      → by_id ps last ≡ some p
      → forbidden_capability ro p.capabilities ≡ some c
      → Answer ps ro before xs Wanted (mutable_infrastructure c path)
  covered :
      (ys : List String)
      → Within xs ys
      → ((t : String) → Wanted t → Elem t ys)
      → ((v : String) → Elem v ys → Elem v xs ⊎ IsClosed ps ro ys v)
      → Answer ps ro before xs Wanted (passed ys)

module _ (ps : List Provider) (ro : Bool) (before : List String) where
  bind-Answer :
      (xs : List String) (P Q R : String → Type 0) (o : Outcome) (k : List String → Outcome)
      → Answer ps ro before xs P o
      → ((ys : List String) → Within xs ys → Answer ps ro before ys Q (k ys))
      → ((t : String) → R t → P t ⊎ Q t)
      → ((t : String) → P t ⊎ Q t → R t)
      → Answer ps ro before xs R (o >>= k)
  bind-Answer xs P Q R o k (bus path t p s) next split join = bus path t (join t (inl p)) s
  bind-Answer xs P Q R o k (barred path t u q c p s e f) next split join =
      barred path t u q c (join t (inl p)) s e f
  bind-Answer xs P Q R o k (covered ys w g c) next split join = extend (k ys) (next ys w)
    where
      extend : (r : Outcome) → Answer ps ro before ys Q r → Answer ps ro before xs R r
      extend r (bus path t q s) = bus path t (join t (inr q)) s
      extend r (barred path t u q c' p s e f) = barred path t u q c' (join t (inr p)) s e f
      extend r (covered zs w' g' c') =
          covered zs (λ t m. w' t (w t m))
            (λ t r'. elim (split t r') [ inl p ↦ w' t (g t p) | inr q ↦ g' t q ])
            (λ v m. elim (c' v m) [
              | inl old ↦ elim (c v old) [
                | inl older ↦ inl older
                | inr closed ↦ inr (IsClosed-mono ps ro ys zs v w' closed)
              ]
              | inr closed ↦ inr closed
            ])

  widen :
      (xs : List String) (P R : String → Type 0) (o : Outcome)
      → Answer ps ro before xs P o
      → ((t : String) → R t → P t)
      → ((t : String) → P t → R t)
      → Answer ps ro before xs R o
  widen xs P R o (bus path t p s) f g = bus path t (g t p) s
  widen xs P R o (barred path t u q c p s e h) f g = barred path t u q c (g t p) s e h
  widen xs P R o (covered ys w h c) f g = covered ys w (λ t r. h t (f t r)) c

module _ (ps : List Provider) (ro : Bool) (before : List String) (fuel : ℕ)
    (search : String → List String → Outcome) where
  loop-none :
      (d : Dependency) (ds : List Dependency) (xs : List String)
      → target d ≡ none
      → visit_dependencies search (d ∷ ds) xs ≡ visit_dependencies search ds xs
  unfolding visit_dependencies
  loop-none d ds xs e = rw (e, visit_dependencies)

  loop-some :
      (d : Dependency) (ds : List Dependency) (xs : List String) (t : String)
      → target d ≡ some t
      → visit_dependencies search (d ∷ ds) xs
        ≡ (search t xs >>= λ v. visit_dependencies search ds v)
  unfolding visit_dependencies
  loop-some d ds xs t e = rw (e, visit_dependencies)

  pub visit_dependencies-Answer :
      (ds : List Dependency) (xs : List String)
      → missing (ids ps) xs < fuel
      → ((t : String) (ys : List String)
          → missing (ids ps) ys < fuel
          → Answer ps ro before ys (λ k. t ≡ k) (search t ys))
      → Answer ps ro before xs (λ t. Targets t ds) (visit_dependencies search ds xs)
  unfolding visit_dependencies
  visit_dependencies-Answer [] xs enough call =
      covered xs (λ t m. m) (λ t m. elim m [ ]) (λ v m. inl m)
  visit_dependencies-Answer (d ∷ ds) xs enough call = elim (Option-cases (target d)) [
    | inl e ↦ subst (Answer ps ro before xs (λ t. Targets t (d ∷ ds))) (sym (loop-none d ds xs e)) (
        widen ps ro before xs (λ t. Targets t ds) (λ t. Targets t (d ∷ ds))
          (visit_dependencies search ds xs) (visit_dependencies-Answer ds xs enough call)
          (λ t m. elim m [ inl named ↦ absurd (cc) | inr later ↦ later ]) (λ t m. inr m))
    | inr (t, e) ↦
        subst (Answer ps ro before xs (λ k. Targets k (d ∷ ds))) (sym (loop-some d ds xs t e)) (
          bind-Answer ps ro before xs (λ k. t ≡ k) (λ k. Targets k ds) (λ k. Targets k (d ∷ ds))
            (search t xs) (λ v. visit_dependencies search ds v) (call t xs enough)
            (λ ys w.
              visit_dependencies-Answer ds ys (omega (arith, missing_mono (ids ps) xs ys w)) call)
            (λ k m. elim m [ inl named ↦ inl (cc) | inr later ↦ inr later ])
            (λ k m. elim m [ inl same ↦ inl (e ∙ ap some same) | inr later ↦ inr later ]))
  ]
