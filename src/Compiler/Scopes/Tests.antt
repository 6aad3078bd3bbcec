-- ===== src/Compiler/Scopes/Tests.antt =====
-- The scope check on a small graph with a cycle.
use doxajs.Base.{String, some, List, [], ◌∷◌, ◌≡◌, refl, false}
use doxajs.Compiler.Manifest.{
  by_constructor, Provider, Dependency, Scope, service, singleton, execution, transient,
}
use doxajs.Compiler.Scopes.{unsafe, assert_scope_safety}
use doxajs.Compiler.Scopes.Laws.{Verdict, assert_scope_safety-Verdict}

abbrev on : String → Dependency
on id = record { kind = by_constructor; token = id; target_id = some id; optional = false }

abbrev provides : String → Scope → List Dependency → Provider
provides id scope ds = record {
  id = id;
  name = id;
  role = service;
  scope = scope;
  capabilities = [];
  dependencies = ds;
}

abbrev mixed : List Provider
mixed =
    provides "root" singleton (on "a" ∷ [])
    ∷ provides "a" transient (on "b" ∷ [])
    ∷ provides "b" transient (on "a" ∷ on "request" ∷ [])
    ∷ provides "request" execution []
    ∷ []

mixed_is_refused : assert_scope_safety mixed ≡ unsafe "root" "a"
unfolding assert_scope_safety
mixed_is_refused = refl

assert_scope_safety-Verdict_example : Verdict mixed mixed (assert_scope_safety mixed)
assert_scope_safety-Verdict_example = assert_scope_safety-Verdict mixed
