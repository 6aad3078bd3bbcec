-- ===== src/Runtime/Profile.antt =====
-- What a profile boots: `normalizeRuntimeProfile`, `providerIdsForProfile` and
-- `configurationIdsForProviders` of packages/runtime/src/runtime.ts.
pub mod Closure
pub mod Laws
mod Tests
use doxajs.Base.{
  String, ℕ, zero, suc, Bool, true, false, Option, none, some, List, [], ◌∷◌, ◌>>=?◌, has, length,
  str_eq, if◌then◌else◌,
}
use doxajs.Js.{Value, undefined, string}
use doxajs.Compiler.Manifest.{Provider, Dependency, Capability, transactions, target, by_id}

pub data RuntimeProfile : Type 0 where
  application model_reader : RuntimeProfile

-- `none` is the error.
abbrev pub normalize_runtime_profile : {N : Type 0} → Value N ⊥ → Option RuntimeProfile
normalize_runtime_profile undefined = some application
normalize_runtime_profile (string s) =
    if str_eq s "application"
    then some application
    else if str_eq s "model-reader"
    then some model_reader
    else none
normalize_runtime_profile v = none

abbrev pub is_transactions : Capability → Bool
is_transactions transactions = true
is_transactions c = false

-- `capabilities.includes('transactions')`
unfoldable pub has_transactions : List Capability → Bool
has_transactions [] = false
has_transactions (c ∷ cs) =
    let later = has_transactions cs in if is_transactions c then true else later

unfoldable pub transaction_provider : List Provider → Option Provider
transaction_provider [] = none
transaction_provider (p ∷ ps) =
    let later = transaction_provider ps in if has_transactions p.capabilities then some p else later

-- The dependencies of one provider, with the recursive call passed in; no fuel left is `none`.
unfoldable pub include_each :
    (String → List String → Option (List String))
    → List Dependency
    → List String
    → Option (List String)
include_each step [] included = some included
include_each step (d ∷ ds) included = elim (target d) [
  | none ↦ include_each step ds included
  | some t ↦ step t included >>=? λ v. include_each step ds v
]

-- `include`, which passes its mutable set along.
unfoldable pub include_id : List Provider → ℕ → String → List String → Option (List String)
include_id ps zero id included = none
include_id ps (suc fuel) id included =
    if has id included then some included else elim (by_id ps id) [
      | none ↦ some included
      | some p ↦ include_each (λ t v. include_id ps fuel t v) p.dependencies (id ∷ included)
    ]

-- `everything` is `undefined`, which leaves no provider out.
pub data Selection : Type 0 where
  everything no_transactions unfinished : Selection
  only : List String → Selection

abbrev pub selected : Option (List String) → Selection
selected none = unfinished
selected (some included) = only included

abbrev pub select_from : List Provider → Option Provider → Selection
select_from ps none = no_transactions
select_from ps (some p) = selected (include_id ps (suc (length ps)) p.id [])

unfoldable pub provider_ids_for_profile : List Provider → RuntimeProfile → Selection
unfolding transaction_provider has_transactions include_id has by_id include_each target
provider_ids_for_profile ps application = everything
provider_ids_for_profile ps model_reader = select_from ps (transaction_provider ps)

-- `included.add(dependency.targetId)`, if there is one and it is among the manifest's configurations.
abbrev pub add_target : List String → Option String → List String → List String
add_target ids none included = included
add_target ids (some t) included = if has t ids then t ∷ included else included

-- The dependencies of an included provider that are configurations; `ids` are all of these.
unfoldable pub add_configurations : List String → List Dependency → List String → List String
add_configurations ids [] included = included
add_configurations ids (d ∷ ds) included =
    add_configurations ids ds (add_target ids (target d) included)

unfoldable pub add_provided : List String → List String → List Provider → List String → List String
add_provided ids providers [] included = included
add_provided ids providers (p ∷ ps) included =
    add_provided ids providers ps
      (if has p.id providers then add_configurations ids p.dependencies included else included)

-- `none` is `undefined`; the ids are those of the manifest's configurations.
unfoldable pub configuration_ids_for_providers :
    List Provider → List String → Option (List String) → Option (List String)
unfolding add_provided has add_configurations target
configuration_ids_for_providers ps ids none = none
configuration_ids_for_providers ps ids (some providers) = some (add_provided ids providers ps [])
