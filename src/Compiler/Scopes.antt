-- ===== src/Compiler/Scopes.antt =====
-- `assertScopeSafety` of packages/compiler/src/manifest-validation.ts: a singleton may not reach a
-- provider that lives for one execution.
pub mod Search
pub mod Laws
mod Tests
use doxajs.Base.{
  String, ℕ, zero, suc, Bool, true, false, Option, none, some, List, [], ◌∷◌, has, if◌then◌else◌,
  length,
}
use doxajs.Compiler.Manifest.{
  Provider, Dependency, Scope, singleton, execution, transient, target, by_id,
}

-- The answer of the search: `clear` is `false`, with the set of visited ids that the call leaves.
pub data Found : Type 0 where
  hit : Found
  clear : List String → Found
  out_of_fuel : Found

infixl 5 ◌>>=◌
abbrev pub ◌>>=◌ : Found → (List String → Found) → Found
hit >>= k = hit
clear v >>= k = k v
out_of_fuel >>= k = out_of_fuel

abbrev pub is_execution : Scope → Bool
is_execution singleton = false
is_execution execution = true
is_execution transient = false

abbrev pub is_singleton : Scope → Bool
is_singleton singleton = true
is_singleton execution = false
is_singleton transient = false

-- `provider.dependencies.some(…)`, with the recursive call passed in.
unfoldable pub any_dependency :
    (String → List String → Found) → List Dependency → List String → Found
any_dependency search [] visited = clear visited
any_dependency search (d ∷ ds) visited = elim (target d) [
  | none ↦ any_dependency search ds visited
  | some t ↦ search t visited >>= λ v. any_dependency search ds v
]

unfoldable pub reaches_execution_scope : List Provider → ℕ → String → List String → Found
reaches_execution_scope ps zero id visited = out_of_fuel
reaches_execution_scope ps (suc fuel) id visited =
    if has id visited then clear visited else elim (by_id ps id) [
      | none ↦ clear (id ∷ visited)
      | some p ↦
          if is_execution p.scope
          then hit
          else any_dependency (λ t v. reaches_execution_scope ps fuel t v) p.dependencies
              (id ∷ visited)
    ]

-- `unsafe` is the error with the singleton and the dependency that its message names.
pub data Safety : Type 0 where
  safe : Safety
  unsafe : String → String → Safety
  unfinished : Safety

-- One round of the inner loop, with the rest of the loop behind it.
abbrev pub after_search : String → String → Found → Safety → Safety
after_search id t hit next = unsafe id t
after_search id t (clear _) next = next
after_search id t out_of_fuel next = unfinished

-- The inner loop: each dependency starts a search with an empty set.
unfoldable pub check_dependencies : List Provider → String → List Dependency → Safety
check_dependencies ps id [] = safe
check_dependencies ps id (d ∷ ds) = elim (target d) [
  | none ↦ check_dependencies ps id ds
  | some t ↦
      after_search id t (reaches_execution_scope ps (suc (length ps)) t [])
        (check_dependencies ps id ds)
]

abbrev pub and_then : Safety → Safety → Safety
and_then safe next = next
and_then (unsafe id t) next = unsafe id t
and_then unfinished next = unfinished

unfoldable pub check_each : List Provider → List Provider → Safety
check_each ps [] = safe
check_each ps (p ∷ rest) =
    let later = check_each ps rest in
    if is_singleton p.scope
    then and_then (check_dependencies ps p.id p.dependencies) later
    else later

unfoldable pub assert_scope_safety : List Provider → Safety
unfolding check_each check_dependencies reaches_execution_scope any_dependency by_id target has
assert_scope_safety ps = check_each ps ps
