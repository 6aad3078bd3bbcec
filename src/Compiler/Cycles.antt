-- ===== src/Compiler/Cycles.antt =====
-- `assertAcyclicProviderGraph` of packages/compiler/src/manifest-validation.ts: a depth-first walk
-- over the providers with a set of ids being visited and a set of ids visited.
pub mod Graph
pub mod Walks
pub mod Invariant
pub mod Calls
pub mod Laws
mod Tests
use doxajs.Base.{
  String, ℕ, zero, suc, Bool, Option, none, some, List, [], ◌∷◌, ◌++◌, has, delete, if◌then◌else◌,
  length,
}
use doxajs.Compiler.Manifest.{Provider, Dependency, target, by_id}

-- The two mutable sets; an id is added at the head.
pub record Marks : Type 0 where
  pub visiting : List String
  pub visited : List String

-- `cycle` is the error with the path that its message prints.
pub data Outcome : Type 0 where
  done : Marks → Outcome
  cycle : List String → Outcome
  out_of_fuel : Outcome

infixl 5 ◌>>=◌
abbrev pub ◌>>=◌ : Outcome → (Marks → Outcome) → Outcome
done m >>= k = k m
cycle p >>= k = cycle p
out_of_fuel >>= k = out_of_fuel

-- `dependency.targetId && byId.has(dependency.targetId)`
unfoldable pub known : List Provider → Option String → Option String
known ps none = none
known ps (some t) = elim (by_id ps t) [ none ↦ none | some _ ↦ some t ]

-- The loop over the dependencies, with the recursive call of `visit` passed in.
unfoldable pub visit_dependencies :
    List Provider → (String → Marks → Outcome) → List Dependency → Marks → Outcome
visit_dependencies ps visit [] m = done m
visit_dependencies ps visit (d ∷ ds) m = elim (known ps (target d)) [
  | none ↦ visit_dependencies ps visit ds m
  | some t ↦ visit t m >>= λ m'. visit_dependencies ps visit ds m'
]

-- `visiting.delete(id); visited.add(id)`
unfoldable pub leave : String → Marks → Marks
leave id m = record { visiting = delete id m.visiting; visited = id ∷ m.visited }

unfoldable pub visit : List Provider → ℕ → String → List String → Marks → Outcome
visit ps zero id path m = out_of_fuel
visit ps (suc fuel) id path m =
    if has id m.visiting
    then cycle (path ++ id ∷ [])
    else if has id m.visited
    then done m
    else elim (by_id ps id) [
      | none ↦ done m
      | some p ↦
          visit_dependencies ps (λ t n. visit ps fuel t (path ++ id ∷ []) n) p.dependencies
            (record m { visiting = id ∷ m.visiting })
          >>= λ n. done (leave id n)
    ]

-- `for (const provider of providers) visit(provider.id, [])`
unfoldable pub visit_each : List Provider → ℕ → List Provider → Marks → Outcome
visit_each ps fuel [] m = done m
visit_each ps fuel (p ∷ rest) m = visit ps fuel p.id [] m >>= λ n. visit_each ps fuel rest n

-- The ids being visited are different providers, so calls nest at most `length providers` deep.
unfoldable pub assert_acyclic_provider_graph : List Provider → Outcome
unfolding visit_each visit visit_dependencies known leave has delete by_id target
assert_acyclic_provider_graph ps =
    visit_each ps (suc (length ps)) ps (record { visiting = []; visited = [] })
