-- ===== src/Compiler/Cycles/Calls.antt =====
-- Each call of the depth-first walk, by its fuel, and the whole of it.
use doxajs.Base.{
  String, ℕ, zero, suc, ◌+◌, ◌<◌, ◌≤◌, List, [], ◌∷◌, ◌++◌, ◌≡◌, inl, inr, refl, sym, ap, subst,
  ◌∙◌, has, Elem, Within, length, length_of_Within, arith, Elem-of_has, not-Elem-of_has, Bool-cases,
}
use doxajs.Compiler.Manifest.{Provider}
use doxajs.Compiler.Cycles.{Marks, visit, visit_each, assert_acyclic_provider_graph}
use doxajs.Compiler.Cycles.Graph.{Provided, ids, length-ids, Elem-of_Provided, Provided-of_Elem}
use doxajs.Compiler.Cycles.Walks.{Walk, Walk-append, Elem-append, Elem-append_self}
use doxajs.Compiler.Cycles.Invariant.{
  IsSound, IsTrail, Result, finished, found, bind-Result, visit_dependencies-Result, leave-Result,
}

IsTrail-cons :
    (ps : List Provider) (path visiting : List String) (id : String)
    → IsTrail ps path visiting
    → Provided ps id
    → ¬ Elem id visiting
    → IsTrail ps (path ++ id ∷ []) (id ∷ visiting)
IsTrail-cons ps path visiting id t provided new = record {
  distinct = (new, t.distinct);
  listed = λ k m. elim m [
    | inl e ↦ subst (λ i. Elem i (ids ps)) e (Elem-of_Provided ps id provided)
    | inr old ↦ t.listed k old
  ];
  on_path = λ k m. elim m [
    | inl e ↦ subst (λ i. Elem i (path ++ id ∷ [])) e (Elem-append_self path id)
    | inr old ↦ Elem-append k path id (t.on_path k old)
  ];
}

-- The fuel exceeds the number of providers that are not being visited.
IsTrail-fits :
    (ps : List Provider) (path visiting : List String)
    → IsTrail ps path visiting
    → length visiting ≤ length ps
IsTrail-fits ps path visiting t =
    omega (arith, length-ids ps, length_of_Within visiting (ids ps) t.distinct t.listed)

visit-Result :
    (ps : List Provider) (fuel : ℕ) (id : String) (path : List String) (m : Marks)
    → Provided ps id
    → IsTrail ps path m.visiting
    → Walk ps path id
    → IsSound ps m
    → length ps < fuel + length m.visiting
    → Result ps m (λ k. k ≡ id) (visit ps fuel id path m)
unfolding visit
visit-Result ps zero id path m provided t w s enough =
    absurd (omega (arith, IsTrail-fits ps path m.visiting t))
visit-Result ps (suc fuel) id path m (p, e) t w s enough = elim (Bool-cases (has id m.visiting)) [
  | inl again ↦ rw again (
      found (path ++ id ∷ []) (record {
        before = path;
        last = id;
        split = refl;
        walk = w;
        met = t.on_path id (Elem-of_has id m.visiting again);
      }))
  | inr new ↦ elim (Bool-cases (has id m.visited)) [
    | inl old ↦
        rw (new, old)
          (finished m refl s (λ k h. h)
            (λ k same. subst (λ i. Elem i m.visited) (sym same) (Elem-of_has id m.visited old)))
    | inr fresh ↦
        rw (new, fresh, e)
          (leave-Result ps m id p _ e (not-Elem-of_has id m.visiting new) (
            visit_dependencies-Result ps (id ∷ m.visiting)
              (λ t' n. visit ps fuel t' (path ++ id ∷ []) n) p.dependencies
              (record m { visiting = id ∷ m.visiting }) refl
              (record {
                ordered = s.ordered;
                apart = λ k h old. elim h [
                  | inl same ↦
                      not-Elem-of_has id m.visited fresh
                        (subst (λ i. Elem i m.visited) (sym same) old)
                  | inr h' ↦ s.apart k h' old
                ];
              })
              (λ b n known_b v' s'.
                visit-Result ps fuel b (path ++ id ∷ []) n known_b.1
                  (subst (IsTrail ps (path ++ id ∷ [])) (sym v') (
                    IsTrail-cons ps path m.visiting id t (p, e)
                      (not-Elem-of_has id m.visiting new)))
                  (Walk-append ps path id b w
                    (record { owner = p; found = e; names = known_b.0; known_target = known_b.1 }))
                  s' (omega (arith, ap length v')))))
  ]
]

visit_each-Result :
    (ps : List Provider) (rest : List Provider) (m : Marks)
    → m.visiting ≡ []
    → Within (ids rest) (ids ps)
    → IsSound ps m
    → Result ps m (λ k. Elem k (ids rest)) (visit_each ps (suc (length ps)) rest m)
unfolding visit_each
visit_each-Result ps [] m v l s = finished m refl s (λ k h. h) (λ k h. elim h [ ])
visit_each-Result ps (p ∷ rest) m v l s =
    bind-Result ps m (λ k. k ≡ p.id) (λ k. Elem k (ids rest)) (λ k. Elem k (ids (p ∷ rest)))
      (visit ps (suc (length ps)) p.id [] m) (λ n. visit_each ps (suc (length ps)) rest n)
      (visit-Result ps (suc (length ps)) p.id [] m (Provided-of_Elem ps p.id (l p.id (inl refl)))
        (subst (IsTrail ps []) (sym v)
          (record { distinct = tt; listed = λ k h. elim h [ ]; on_path = λ k h. h }))
        tt s (omega arith))
      (λ n v' s'. visit_each-Result ps rest n (v' ∙ v) (λ k h. l k (inr h)) s')
      (λ k h. elim h [ inl e ↦ inl (sym e) | inr later ↦ inr later ])

abbrev pub unmarked : Marks
unmarked = record { visiting = []; visited = [] }

pub assert-Result :
    (ps : List Provider)
    → Result ps unmarked (λ k. Elem k (ids ps)) (assert_acyclic_provider_graph ps)
unfolding assert_acyclic_provider_graph
assert-Result ps =
    visit_each-Result ps ps unmarked refl (λ k h. h)
      (record { ordered = tt; apart = λ k h. elim h [ ] })
