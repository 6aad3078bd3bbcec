-- ===== src/Compiler/Dispatch/Search.antt =====
-- The walk from one root stops exactly where it meets the action bus or forbidden infrastructure.
use doxajs.Base.{
  String, ℕ, zero, suc, ◌<◌, Bool, none, some, List, [], ◌∷◌, ◌++◌, append_assoc, str_eq, eq_iff,
  ◌≡◌, ◌≢◌, inl, inr, refl, subst, ◌∙◌, has, Elem, missing, missing-cons, arith, Elem-of_has,
  not-Elem-of_has, Bool-cases, Option-cases,
}
use doxajs.Compiler.Manifest.{Provider, by_id}
use doxajs.Compiler.Cycles.Graph.{Targets, ids, Elem-of_Provided}
use doxajs.Compiler.Dispatch.{Outcome, action_bus, forbidden_capability, visit}
use doxajs.Compiler.Dispatch.Answers.{
  Runs, here, onward, IsStop, Stops, IsClosed, Answer, bus, barred, covered,
  visit_dependencies-Answer,
}

Stops-onward :
    (ps : List Provider) (before path : List String) (id t last : String) (p : Provider)
    → by_id ps id ≡ some p
    → Targets t p.dependencies
    → Stops ps (before ++ id ∷ []) path t last
    → Stops ps before path id last
Stops-onward ps before path id t last p e m s = record {
  rest = t ∷ s.rest;
  split = s.split ∙ append_assoc before (id ∷ []) (t ∷ s.rest);
  run = onward p e m s.run;
}

plain-IsClosed :
    (ps : List Provider) (ro : Bool) (set : List String) (id : String) (p : Provider)
    → id ≢ action_bus
    → by_id ps id ≡ some p
    → forbidden_capability ro p.capabilities ≡ none
    → ((t : String) → Targets t p.dependencies → Elem t set)
    → IsClosed ps ro set id
plain-IsClosed ps ro set id p other e plain g = record {
  clean = λ stop. elim stop [
    | inl same ↦ other same
    | inr w ↦ cc (
      subst (λ (r : Provider). forbidden_capability ro r.capabilities ≡ none) {x = p} {y = w.0}
          (cc (w.2)) plain,
      w.3,
    )
  ];
  inside =
      λ q t e' m. g t (subst (λ (r : Provider). Targets t r.dependencies) {x = q} {y = p} (cc) m);
}

unknown-IsClosed :
    (ps : List Provider) (ro : Bool) (set : List String) (id : String)
    → id ≢ action_bus
    → by_id ps id ≡ none
    → IsClosed ps ro set id
unknown-IsClosed ps ro set id other e = record {
  clean = λ stop. elim stop [ inl same ↦ other same | inr w ↦ cc (w.2) ];
  inside = λ p t e' m. absurd (cc);
}

-- A visited id that is no stop, once its dependencies are walked.
mark-Answer :
    (ps : List Provider) (ro : Bool) (before xs : List String) (id : String) (p : Provider)
    (o : Outcome)
    → id ≢ action_bus
    → by_id ps id ≡ some p
    → forbidden_capability ro p.capabilities ≡ none
    → Answer ps ro (before ++ id ∷ []) (id ∷ xs) (λ t. Targets t p.dependencies) o
    → Answer ps ro before xs (λ k. id ≡ k) o
mark-Answer ps ro before xs id p o other e plain (bus path t m s) =
    bus path id refl (Stops-onward ps before path id t action_bus p e m s)
mark-Answer ps ro before xs id p o other e plain (barred path t last q c m s e' f) =
    barred path id last q c refl (Stops-onward ps before path id t last p e m s) e' f
mark-Answer ps ro before xs id p o other e plain (covered ys w g c) =
    covered ys (λ t m. w t (inr m)) (λ t same. w t (inl same))
      (λ v m. elim (c v m) [
        | inr closed ↦ inr closed
        | inl old ↦ elim old [
          | inr older ↦ inl older
          | inl same ↦
              inr (subst (IsClosed ps ro ys) same (plain-IsClosed ps ro ys id p other e plain g))
        ]
      ])

pub visit-Answer :
    (ps : List Provider) (ro : Bool) (fuel : ℕ) (id : String) (before xs : List String)
    → missing (ids ps) xs < fuel
    → Answer ps ro before xs (λ k. id ≡ k) (visit ps ro fuel id before xs)
unfolding visit
visit-Answer ps ro zero id before xs enough = absurd (omega arith)
visit-Answer ps ro (suc fuel) id before xs enough = elim (Bool-cases (str_eq id action_bus)) [
  | inl same ↦ rw same (
      bus (before ++ id ∷ []) id refl (record {
        rest = [];
        split = refl;
        run = subst (Runs ps id []) ((eq_iff id action_bus).0 same) here;
      }))
  | inr other ↦
      let differs : id ≢ action_bus = λ e. cc ((eq_iff id action_bus).1 e) in
      elim (Bool-cases (has id xs)) [
        | inl old ↦
            rw (other, old)
              (covered xs (λ t m. m) (λ t same. subst (λ k. Elem k xs) same (Elem-of_has id xs old))
                (λ v m. inl m))
        | inr new ↦ elim (Option-cases (by_id ps id)) [
          | inl unknown ↦
              rw (other, new, unknown)
                (covered (id ∷ xs) (λ t m. inr m) (λ t same. inl same)
                  (λ v m. elim m [
                    | inl same ↦ inr (
                        subst (IsClosed ps ro (id ∷ xs)) same
                          (unknown-IsClosed ps ro (id ∷ xs) id differs unknown))
                    | inr old ↦ inl old
                  ]))
          | inr (p, e) ↦ elim (Option-cases (forbidden_capability ro p.capabilities)) [
            | inr (c, f) ↦
                rw (other, new, e, f)
                  (barred (before ++ id ∷ []) id id p c refl
                    (record { rest = []; split = refl; run = here }) e f)
            | inl plain ↦
                rw (other, new, e, plain)
                  (mark-Answer ps ro before xs id p _ differs e plain (
                    visit_dependencies-Answer ps ro (before ++ id ∷ []) fuel
                      (λ t v. visit ps ro fuel t (before ++ id ∷ []) v) p.dependencies (id ∷ xs)
                      (omega (
                        arith,
                        missing-cons (ids ps) xs id (Elem-of_Provided ps id (p, e))
                            (not-Elem-of_has id xs new),
                      ))
                      (λ t ys fits. visit-Answer ps ro fuel t (before ++ id ∷ []) ys fits)))
          ]
        ]
      ]
]

-- Every id that a run meets inside a closed set is in the set, so none is a stop.
pub closed-not-IsStop :
    (ps : List Provider) (ro : Bool) (ys : List String) (t last : String) (rest : List String)
    → ((v : String) → Elem v ys → IsClosed ps ro ys v)
    → Elem t ys
    → Runs ps t rest last
    → ¬ IsStop ps ro last
closed-not-IsStop ps ro ys t last rest c m here = (c t m).clean
closed-not-IsStop ps ro ys t last rest c m (onward {u} {rest = more} p e named run) =
    closed-not-IsStop ps ro ys u last more c ((c t m).inside p u e named) run
