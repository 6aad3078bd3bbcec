-- ===== src/Compiler/Manifest.antt =====
-- The manifest's entries (packages/manifest/src/index.ts), as the compiler's checks read them.
use doxajs.Base.{String, Bool, Option, none, some, List, [], ◌∷◌, str_eq, if◌then◌else◌}

pub data Scope : Type 0 where
  singleton execution transient : Scope

pub data ProviderRole : Type 0 where
  provider service : ProviderRole

pub data Capability : Type 0 where
  authentication queues transactions cache mail sms broadcasting telemetry observations : Capability

pub data DependencyKind : Type 0 where
  by_constructor by_role : DependencyKind

pub record Dependency : Type 0 where
  pub kind : DependencyKind
  pub token : String
  pub target_id : Option String
  pub optional : Bool

pub record Provider : Type 0 where
  pub id : String
  pub name : String
  pub role : ProviderRole
  pub scope : Scope
  pub capabilities : List Capability
  pub dependencies : List Dependency

-- `dependency.targetId` in a test: an absent id and the empty text both count as false.
unfoldable pub target : Dependency → Option String
target d = elim d.target_id [ none ↦ none | some t ↦ if str_eq t "" then none else some t ]

-- `new Map(providers.map((provider) => [provider.id, provider])).get(id)`: the last entry wins.
unfoldable pub by_id : List Provider → String → Option Provider
by_id [] id = none
by_id (p ∷ ps) id = elim (by_id ps id) [
  | some q ↦ some q
  | none ↦ if str_eq p.id id then some p else none
]
