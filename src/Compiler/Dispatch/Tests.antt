-- ===== src/Compiler/Dispatch/Tests.antt =====
-- The reachability check on small manifests.
use doxajs.Base.{String, some, List, [], ◌∷◌, ◌++◌, ◌≡◌, refl, false, map}
use doxajs.Compiler.Manifest.{
  by_constructor, Provider, Dependency, Capability, service, singleton, mail,
}
use doxajs.Compiler.Dispatch.{
  Operation, Root, action, query, nested_dispatch, mutable_infrastructure, query_ids, root_of,
  assert_no_nested_dispatch,
}
use doxajs.Compiler.Dispatch.Laws.{Verdict, assert_no_nested_dispatch-Verdict}

abbrev on : String → Dependency
on id = record { kind = by_constructor; token = id; target_id = some id; optional = false }

abbrev provides : String → List Capability → List Dependency → Provider
provides id cs ds = record {
  id = id;
  name = id;
  role = service;
  scope = singleton;
  capabilities = cs;
  dependencies = ds;
}

abbrev services : List Provider
services =
    provides "a" [] (on "post" ∷ on "doxa:action-bus" ∷ []) ∷ provides "post" (mail ∷ []) [] ∷ []

abbrev asks : List Operation
asks = record { id = "ask"; role = query; dependencies = on "a" ∷ [] } ∷ []

abbrev acts : List Operation
acts = record { id = "act"; role = action; dependencies = on "a" ∷ [] } ∷ []

abbrev pings : List Root
pings = record { id = "ping"; dependencies = on "post" ∷ [] } ∷ []

query_is_refused :
    assert_no_nested_dispatch services asks [] []
    ≡ mutable_infrastructure mail ("ask" ∷ "a" ∷ "post" ∷ [])
unfolding assert_no_nested_dispatch
query_is_refused = refl

action_is_refused :
    assert_no_nested_dispatch services acts [] []
    ≡ nested_dispatch ("act" ∷ "a" ∷ "doxa:action-bus" ∷ [])
unfolding assert_no_nested_dispatch
action_is_refused = refl

assert_no_nested_dispatch-Verdict_example :
    Verdict services
      (query_ids asks ++ map (λ c. c.id) pings)
      (map root_of asks ++ ([] ++ pings))
      (assert_no_nested_dispatch services asks [] pings)
assert_no_nested_dispatch-Verdict_example = assert_no_nested_dispatch-Verdict services asks [] pings
