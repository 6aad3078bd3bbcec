-- ===== src/Compiler/Cycles/Tests.antt =====
-- The walk on small graphs.
use doxajs.Base.{String, some, List, [], ◌∷◌, ◌≡◌, refl, false}
use doxajs.Compiler.Manifest.{by_constructor, Provider, Dependency, service, singleton}
use doxajs.Compiler.Cycles.{done, cycle, assert_acyclic_provider_graph}
use doxajs.Compiler.Cycles.Laws.{Verdict, assert_acyclic-Verdict}

abbrev on : String → Dependency
on id = record { kind = by_constructor; token = id; target_id = some id; optional = false }

abbrev provides : String → List Dependency → Provider
provides id ds = record {
  id = id;
  name = id;
  role = service;
  scope = singleton;
  capabilities = [];
  dependencies = ds;
}

abbrev looped : List Provider
looped = provides "a" (on "b" ∷ on "absent" ∷ []) ∷ provides "b" (on "a" ∷ []) ∷ []

abbrev layered : List Provider
layered = provides "a" (on "b" ∷ on "" ∷ []) ∷ provides "b" (on "absent" ∷ []) ∷ []

layered_is_accepted :
    assert_acyclic_provider_graph layered
    ≡ done (record { visiting = []; visited = "a" ∷ "b" ∷ [] })
unfolding assert_acyclic_provider_graph
layered_is_accepted = refl

looped_is_refused : assert_acyclic_provider_graph looped ≡ cycle ("a" ∷ "b" ∷ "a" ∷ [])
unfolding assert_acyclic_provider_graph
looped_is_refused = refl

assert_acyclic-Verdict_example : Verdict looped (assert_acyclic_provider_graph looped)
assert_acyclic-Verdict_example = assert_acyclic-Verdict looped
