-- ===== src/Compiler/Dispatch/Laws.antt =====
-- `assertNoNestedActionBusReachability` against the runs of the dependency graph.
use doxajs.Base.{
  String, suc, some, List, [], ◌∷◌, ◌++◌, ◌≡◌, ◌⊎◌, inl, inr, refl, sym, subst, has, map, length,
  missing-nil, arith,
}
use doxajs.Compiler.Manifest.{Provider, Capability, by_id}
use doxajs.Compiler.Cycles.Graph.{Targets, ids, length-ids}
use doxajs.Compiler.Dispatch.{
  Operation, Root, Outcome, passed, nested_dispatch, mutable_infrastructure, out_of_fuel, ◌>>=◌,
  action_bus, forbidden_capability, visit, check_root, check_roots, query_ids, root_of,
  assert_no_nested_dispatch,
}
use doxajs.Compiler.Dispatch.Answers.{
  Runs, IsStop, Stops, Answer, bus, barred, covered, visit_dependencies-Answer,
}
use doxajs.Compiler.Dispatch.Search.{visit-Answer, closed-not-IsStop}

-- The root is among the list.
abbrev pub Listed : Root → List Root → Type 0
Listed r [] = ⊥
Listed r (s ∷ ss) = (s ≡ r) ⊎ Listed r ss

-- A listed root, and a run from one of its dependencies that the printed path spells out.
pub record Offends (ps : List Provider) (roots : List Root) (path : List String) (last : String)
    : Type 0 where
  pub root : Root
  pub listed : Listed root roots
  pub dependency : String
  pub named : Targets dependency root.dependencies
  pub stops : Stops ps (root.id ∷ []) path dependency last

-- So, and the last id is a provider with the capability, forbidden to a read-only root.
pub record OffendsReadOnly (ps : List Provider) (read_only_ids : List String) (roots : List Root)
    (c : Capability) (path : List String) : Type 0 where
  pub last : String
  pub offence : Offends ps roots path last
  pub owner : Provider
  pub found : by_id ps last ≡ some owner
  pub forbidden :
      forbidden_capability (has offence.root.id read_only_ids) owner.capabilities ≡ some c

abbrev pub Verdict : List Provider → List String → List Root → Outcome → Type 0
Verdict ps ro roots (passed _) =
    (r : Root) (t last : String) (rest : List String)
    → Listed r roots
    → Targets t r.dependencies
    → Runs ps t rest last
    → ¬ IsStop ps (has r.id ro) last
Verdict ps ro roots (nested_dispatch path) = Offends ps roots path action_bus
Verdict ps ro roots (mutable_infrastructure c path) = OffendsReadOnly ps ro roots c path
Verdict ps ro roots out_of_fuel = ⊥

Verdict-of_Answer :
    (ps : List Provider) (ro : List String) (r : Root) (o : Outcome)
    → Answer ps (has r.id ro) (r.id ∷ []) [] (λ t. Targets t r.dependencies) o
    → Verdict ps ro (r ∷ []) o
Verdict-of_Answer ps ro r o (bus path t m s) = record {
  root = r;
  listed = inl refl;
  dependency = t;
  named = m;
  stops = s;
}
Verdict-of_Answer ps ro r o (barred path t last p c m s e f) = record {
  last = last;
  offence = record { root = r; listed = inl refl; dependency = t; named = m; stops = s };
  owner = p;
  found = e;
  forbidden = f;
}
Verdict-of_Answer ps ro r o (covered ys w g c) = λ q t last rest l m run stop. elim l [
  | inr absent ↦ absent
  | inl same ↦
      closed-not-IsStop ps (has r.id ro) ys t last rest
        (λ v h. elim (c v h) [ inl old ↦ absurd old | inr closed ↦ closed ])
        (g t (subst (λ (k : Root). Targets t k.dependencies) {x = q} {y = r} (sym same) m)) run
        (subst (λ (k : Root). IsStop ps (has k.id ro) last) {x = q} {y = r} (sym same) stop)
]

check_root-Verdict :
    (ps : List Provider) (ro : List String) (r : Root) → Verdict ps ro (r ∷ []) (check_root ps ro r)
unfolding check_root
check_root-Verdict ps ro r = Verdict-of_Answer ps ro r _ (
    visit_dependencies-Answer ps (has r.id ro) (r.id ∷ []) (suc (length ps))
      (λ t v. visit ps (has r.id ro) (suc (length ps)) t (r.id ∷ []) v) r.dependencies []
      (omega (arith, missing-nil (ids ps), length-ids ps))
      (λ t ys fits. visit-Answer ps (has r.id ro) (suc (length ps)) t (r.id ∷ []) ys fits))

both-Verdict :
    (ps : List Provider) (ro : List String) (r : Root) (rs : List Root) (o later : Outcome)
    → Verdict ps ro (r ∷ []) o
    → Verdict ps ro rs later
    → Verdict ps ro (r ∷ rs) (o >>= λ _. later)
both-Verdict ps ro r rs (passed v) (passed w) h k = λ q t last rest l m. elim l [
  | inl same ↦ h q t last rest (inl same) m
  | inr behind ↦ k q t last rest behind m
]
both-Verdict ps ro r rs (passed v) (nested_dispatch path) h k = record {
  root = k.root;
  listed = inr k.listed;
  dependency = k.dependency;
  named = k.named;
  stops = k.stops;
}
both-Verdict ps ro r rs (passed v) (mutable_infrastructure c path) h k = record {
  last = k.last;
  offence = record {
    root = k.offence.root;
    listed = inr k.offence.listed;
    dependency = k.offence.dependency;
    named = k.offence.named;
    stops = k.offence.stops;
  };
  owner = k.owner;
  found = k.found;
  forbidden = k.forbidden;
}
both-Verdict ps ro r rs (passed v) out_of_fuel h k = k
both-Verdict ps ro r rs (nested_dispatch path) later h k = record {
  root = h.root;
  listed = elim h.listed [ inl e ↦ inl e | inr none_left ↦ absurd none_left ];
  dependency = h.dependency;
  named = h.named;
  stops = h.stops;
}
both-Verdict ps ro r rs (mutable_infrastructure c path) later h k = record {
  last = h.last;
  offence = record {
    root = h.offence.root;
    listed = elim h.offence.listed [ inl e ↦ inl e | inr none_left ↦ absurd none_left ];
    dependency = h.offence.dependency;
    named = h.offence.named;
    stops = h.offence.stops;
  };
  owner = h.owner;
  found = h.found;
  forbidden = h.forbidden;
}
both-Verdict ps ro r rs out_of_fuel later h k = absurd h

check_roots-Verdict :
    (ps : List Provider) (ro : List String) (rs : List Root)
    → Verdict ps ro rs (check_roots ps ro rs)
unfolding check_roots
check_roots-Verdict ps ro [] = λ q t last rest l. absurd l
check_roots-Verdict ps ro (r ∷ rs) =
    both-Verdict ps ro r rs (check_root ps ro r) (check_roots ps ro rs) (check_root-Verdict ps ro r)
      (check_roots-Verdict ps ro rs)

-- For every manifest the check has a verdict on the roots, which are the operations, the jobs and
-- the realtime commands: if it passes, no run of dependencies from a root ends at the action bus,
-- nor, where the root's id is that of a query or of a realtime command, at a provider with a
-- forbidden capability; if it refuses, the path of the error is the root's id followed by such a run.
pub assert_no_nested_dispatch-Verdict :
    (ps : List Provider) (operations : List Operation) (jobs realtime_commands : List Root)
    → Verdict ps
        (query_ids operations ++ map (λ c. c.id) realtime_commands)
        (map root_of operations ++ (jobs ++ realtime_commands))
        (assert_no_nested_dispatch ps operations jobs realtime_commands)
unfolding assert_no_nested_dispatch
assert_no_nested_dispatch-Verdict ps operations jobs realtime_commands =
    check_roots-Verdict ps (query_ids operations ++ map (λ c. c.id) realtime_commands)
      (map root_of operations ++ (jobs ++ realtime_commands))
