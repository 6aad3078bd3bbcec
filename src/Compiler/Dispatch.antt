-- ===== src/Compiler/Dispatch.antt =====
-- `assertNoNestedActionBusReachability` of packages/compiler/src/manifest-validation.ts.
pub mod Answers
pub mod Search
pub mod Laws
mod Tests
use doxajs.Base.{
  String, ℕ, zero, suc, Bool, true, false, Option, none, some, List, [], ◌∷◌, ◌++◌, has, str_eq,
  map, if◌then◌else◌, length,
}
use doxajs.Compiler.Manifest.{
  Provider, Dependency, Capability, authentication, queues, transactions, cache, mail, sms,
  broadcasting, telemetry, observations, target, by_id,
}

pub data OperationRole : Type 0 where
  action query : OperationRole

pub record Operation : Type 0 where
  pub id : String
  pub role : OperationRole
  pub dependencies : List Dependency

-- A job, a realtime command, or an operation seen as a root.
pub record Root : Type 0 where
  pub id : String
  pub dependencies : List Dependency

abbrev pub action_bus : String
action_bus = "doxa:action-bus"

-- `forbiddenReadOnlyCapabilities.has(capability)`
abbrev pub is_forbidden : Capability → Bool
is_forbidden authentication = true
is_forbidden transactions = true
is_forbidden queues = true
is_forbidden mail = true
is_forbidden sms = true
is_forbidden broadcasting = true
is_forbidden cache = false
is_forbidden telemetry = false
is_forbidden observations = false

-- `provider.capabilities.find(…)`, taken only for a read-only root.
unfoldable pub forbidden_capability : Bool → List Capability → Option Capability
forbidden_capability false cs = none
forbidden_capability true [] = none
forbidden_capability true (c ∷ cs) = if is_forbidden c then some c else forbidden_capability true cs

-- `passed` carries the visited ids; the errors carry the path that their messages print.
pub data Outcome : Type 0 where
  passed : List String → Outcome
  nested_dispatch : List String → Outcome
  mutable_infrastructure : Capability → List String → Outcome
  out_of_fuel : Outcome

infixl 5 ◌>>=◌
abbrev pub ◌>>=◌ : Outcome → (List String → Outcome) → Outcome
passed v >>= k = k v
nested_dispatch path >>= k = nested_dispatch path
mutable_infrastructure c path >>= k = mutable_infrastructure c path
out_of_fuel >>= k = out_of_fuel

-- The loop over dependencies, with the recursive call passed in.
unfoldable pub visit_dependencies :
    (String → List String → Outcome) → List Dependency → List String → Outcome
visit_dependencies visit [] visited = passed visited
visit_dependencies visit (d ∷ ds) visited = elim (target d) [
  | none ↦ visit_dependencies visit ds visited
  | some t ↦ visit t visited >>= λ v. visit_dependencies visit ds v
]

unfoldable pub visit : List Provider → Bool → ℕ → String → List String → List String → Outcome
visit ps read_only zero id path visited = out_of_fuel
visit ps read_only (suc fuel) id path visited =
    if str_eq id action_bus
    then nested_dispatch (path ++ id ∷ [])
    else if has id visited
    then passed visited
    else elim (by_id ps id) [
      | none ↦ passed (id ∷ visited)
      | some p ↦ elim (forbidden_capability read_only p.capabilities) [
        | some c ↦ mutable_infrastructure c (path ++ id ∷ [])
        | none ↦
            visit_dependencies (λ t v. visit ps read_only fuel t (path ++ id ∷ []) v) p.dependencies
              (id ∷ visited)
      ]
    ]

-- One root, with a set of visited ids of its own.
unfoldable pub check_root : List Provider → List String → Root → Outcome
check_root ps read_only_ids root =
    visit_dependencies
      (λ t v. visit ps (has root.id read_only_ids) (suc (length ps)) t (root.id ∷ []) v)
      root.dependencies []

unfoldable pub check_roots : List Provider → List String → List Root → Outcome
check_roots ps read_only_ids [] = passed []
check_roots ps read_only_ids (r ∷ rs) =
    check_root ps read_only_ids r >>= λ _. check_roots ps read_only_ids rs

-- The ids of the operations whose role is `query`.
unfoldable pub query_ids : List Operation → List String
query_ids [] = []
query_ids (o ∷ os) = let rest = query_ids os in elim o.role [ action ↦ rest | query ↦ o.id ∷ rest ]

abbrev pub root_of : Operation → Root
root_of o = record { id = o.id; dependencies = o.dependencies }

unfoldable pub assert_no_nested_dispatch :
    List Provider → List Operation → List Root → List Root → Outcome
unfolding check_roots check_root visit visit_dependencies forbidden_capability query_ids has by_id
    target
assert_no_nested_dispatch ps operations jobs realtime_commands =
    check_roots ps (query_ids operations ++ map (λ c. c.id) realtime_commands)
      (map root_of operations ++ (jobs ++ realtime_commands))
