-- ===== src/Compiler/Cycles/Invariant.antt =====
-- What the depth-first walk keeps, call by call.
use doxajs.Base.{
  String, Option, none, some, List, [], ◌∷◌, ◌≡◌, ◌⊎◌, inl, inr, refl, sym, ap, subst, ◌∙◌, delete,
  delete-cons_self, Elem, Within, Distinct, Option-cases,
}
use doxajs.Compiler.Manifest.{Provider, Dependency, target, by_id}
use doxajs.Compiler.Cycles.{Marks, Outcome, done, cycle, ◌>>=◌, known, visit_dependencies, leave}
use doxajs.Compiler.Cycles.Graph.{Targets, Provided, Edge, ids}
use doxajs.Compiler.Cycles.Walks.{IsCycle}

-- The visited ids, newest first: the targets of each one's edges stand behind it.
abbrev pub IsOrdered : List Provider → List String → Type 0
IsOrdered ps [] = Unit
IsOrdered ps (v ∷ vs) = (¬ Elem v vs) × ((b : String) → Edge ps v b → Elem b vs) × IsOrdered ps vs

pub record IsSound (ps : List Provider) (m : Marks) : Type 0 where
  pub ordered : IsOrdered ps m.visited
  pub apart : (k : String) → Elem k m.visiting → ¬ Elem k m.visited

-- The ids being visited, along the path to the current id.
pub record IsTrail (ps : List Provider) (path : List String) (visiting : List String) : Type 0 where
  pub distinct : Distinct visiting
  pub listed : Within visiting (ids ps)
  pub on_path : Within visiting path

-- What a call that starts from `m` leaves behind when it is to visit the ids in `Wanted`.
pub data Result (ps : List Provider) (m : Marks) (Wanted : String → Type 0) : Outcome → Type 0 where
  finished :
      (n : Marks)
      → n.visiting ≡ m.visiting
      → IsSound ps n
      → Within m.visited n.visited
      → ((k : String) → Wanted k → Elem k n.visited)
      → Result ps m Wanted (done n)
  found : (path : List String) → IsCycle ps path → Result ps m Wanted (cycle path)

-- One more call after a finished one.
pub bind-Result :
    (ps : List Provider) (m : Marks) (P Q R : String → Type 0) (o : Outcome) (k : Marks → Outcome)
    → Result ps m P o
    → ((n : Marks) → n.visiting ≡ m.visiting → IsSound ps n → Result ps n Q (k n))
    → ((i : String) → R i → P i ⊎ Q i)
    → Result ps m R (o >>= k)
bind-Result ps m P Q R o k (found path c) next split = found path c
bind-Result ps m P Q R o k (finished n v s w g) next split = extend (k n) (next n v s)
  where
    extend : (r : Outcome) → Result ps n Q r → Result ps m R r
    extend r (found path c) = found path c
    extend r (finished l v' s' w' g') =
        finished l (v' ∙ v) s' (λ i e. w' i (w i e))
          (λ i wanted. elim (split i wanted) [ inl p ↦ w' i (g i p) | inr q ↦ g' i q ])

-- The targets of a list of dependencies that are known.
abbrev Known : List Provider → List Dependency → String → Type 0
Known ps ds t = Targets t ds × Provided ps t

pub known-some :
    (ps : List Provider) (o : Option String) (t : String)
    → known ps o ≡ some t
    → (o ≡ some t) × Provided ps t
unfolding known
known-some ps none t h = absurd (cc)
known-some ps (some u) t h = elim (Option-cases (by_id ps u)) [
  | inl missing ↦ absurd (cc (rw (missing, known) at h))
  | inr (p, e) ↦ let same : some u ≡ some t = rw (e, known) at h in (same, (p, cc))
]

pub known-none :
    (ps : List Provider) (o : Option String) (t : String)
    → known ps o ≡ none
    → o ≡ some t
    → ¬ Provided ps t
unfolding known
known-none ps none t h e q = cc
known-none ps (some u) t h e (p, present) =
    let at_u : by_id ps u ≡ some p = cc in cc (rw (at_u, known) at h)

pub weaken :
    (ps : List Provider) (m : Marks) (P R : String → Type 0) (o : Outcome)
    → Result ps m P o
    → ((k : String) → R k → P k)
    → Result ps m R o
weaken ps m P R o (found path c) f = found path c
weaken ps m P R o (finished n v s w g) f = finished n v s w (λ k r. g k (f k r))

module _ (ps : List Provider) (visiting : List String) (step : String → Marks → Outcome) where
  pub visit_dependencies-Result :
      (ds : List Dependency) (m : Marks)
      → m.visiting ≡ visiting
      → IsSound ps m
      → ((t : String) (n : Marks)
          → Known ps ds t
          → n.visiting ≡ visiting
          → IsSound ps n
          → Result ps n (λ k. k ≡ t) (step t n))
      → Result ps m (Known ps ds) (visit_dependencies ps step ds m)
  unfolding visit_dependencies
  visit_dependencies-Result [] m v s call = finished m refl s (λ k e. e) (λ k w. elim w.0 [ ])
  visit_dependencies-Result (d ∷ ds) m v s call = elim (Option-cases (known ps (target d))) [
    | inl unknown ↦
        rw (unknown, visit_dependencies)
          (weaken ps m (Known ps ds) (Known ps (d ∷ ds)) (visit_dependencies ps step ds m)
            (visit_dependencies-Result ds m v s (λ t n w. call t n (inr w.0, w.1)))
            (λ k w. elim w.0 [
              | inl e ↦ absurd (known-none ps (target d) k unknown e w.1)
              | inr later ↦ (later, w.1)
            ]))
    | inr (t, e) ↦
        let (names, provided) = known-some ps (target d) t e in
        rw (e, visit_dependencies)
          (bind-Result ps m (λ k. k ≡ t) (Known ps ds) (Known ps (d ∷ ds)) (step t m)
            (λ n. visit_dependencies ps step ds n) (call t m (inl names, provided) v s)
            (λ n v' s'.
              visit_dependencies-Result ds n (v' ∙ v) s' (λ u l w. call u l (inr w.0, w.1)))
            (λ k w. elim w.0 [ inl same ↦ inl (cc) | inr later ↦ inr (later, w.1) ]))
  ]

-- The end of a call of `visit`: the id moves from the first set to the second.
pub leave-Result :
    (ps : List Provider) (m : Marks) (id : String) (p : Provider) (o : Outcome)
    → by_id ps id ≡ some p
    → ¬ Elem id m.visiting
    → Result ps (record m { visiting = id ∷ m.visiting }) (Known ps p.dependencies) o
    → Result ps m (λ k. k ≡ id) (o >>= λ n. done (leave id n))
unfolding leave
leave-Result ps m id p o e new (found path c) = found path c
leave-Result ps m id p o e new (finished n v s w g) =
    let back : delete id n.visiting ≡ m.visiting =
      ap (delete id) v ∙ delete-cons_self id m.visiting in
    let inside = λ (k : String) (h : Elem k (id ∷ m.visiting)). subst (Elem k) (sym v) h in
    finished (leave id n) back
      (record {
        ordered = (
          s.apart id (inside id (inl refl)),
          (λ b edge. g b (
            subst (λ (q : Provider). Targets b q.dependencies) {x = edge.owner} {y = p}
                (cc (edge.found)) edge.names,
            edge.known_target,
          )),
          s.ordered,
        );
        apart = λ k h met.
            let h' = subst (Elem k) back h in
            elim met [
              | inl same ↦ new (subst (λ i. Elem i m.visiting) (sym same) h')
              | inr old ↦ s.apart k (inside k (inr h')) old
            ];
      })
      (λ k h. inr (w k h)) (λ k same. inl (sym same))
