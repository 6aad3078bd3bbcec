-- ===== src/Runtime/Graph.antt =====
-- `constructSingletonGraph` of packages/runtime/src/runtime.ts: every singleton is constructed, its
-- dependencies first. Instances are named; a constructor is known by what it is called with.
pub mod Order
pub mod Dependencies
pub mod Construct
pub mod Lookups
pub mod Resolve
pub mod Laws
mod Tests
use doxajs.Base.{
  String, ℕ, zero, suc, Bool, true, false, not, ◌&&◌, Option, none, some, List, [], ◌∷◌, has,
  delete, length, map, str_eq, if◌then◌else◌,
}
use doxajs.Compiler.Manifest.{
  Provider, Dependency, DependencyKind, by_constructor, by_role, target, by_id,
}
use doxajs.Compiler.Scopes.{is_singleton}

-- The logger, a configuration, the instance of a constructor call, counted from 0, or an override.
pub data Instance : Type 0 where
  logger : Instance
  configuration overriding : String → Instance
  constructed : ℕ → Instance

pub record Participant : Type 0 where
  pub id : String
  pub instance_of_id : Instance

pub record Call : Type 0 where
  pub id : String
  pub arguments : List (Option Instance)

-- The participants are also the entries of `singletonInstances`. Both lists have the newest first,
-- and so has the stack.
pub record State : Type 0 where
  pub participants : List Participant
  pub calls : List Call
  pub stack : List String

pub data Failure : Type 0 where
  undeclared_override cyclic missing_constructor constructor_throws : String → Failure
  unavailable : String → String → Failure

pub data Result (A : Type 0) : Type 0 where
  done : A → State → Result A
  failed : Failure → Result A
  out_of_fuel : Result A

infixl 5 ◌>>=◌
abbrev pub ◌>>=◌ : {A B : Type 0} → Result A → (A → State → Result B) → Result B
done a s >>= k = k a s
failed e >>= k = failed e
out_of_fuel >>= k = out_of_fuel

-- The manifest, the keys of `overrides` and of `configurations`, the selected providers, the registry
-- and whether a constructor throws on the arguments.
pub record Parts : Type 0 where
  pub providers : List Provider
  pub overrides : List String
  pub configurations : List String
  pub included : Option (List String)
  pub has_constructor : String → Bool
  pub throws : String → List (Option Instance) → Bool

-- What `resolve` knows of an id before it looks for an instance.
pub data Lookup : Type 0 where
  ready : Instance → Lookup
  unknown : Lookup
  provided : Provider → Lookup

abbrev pub is_included : Option (List String) → String → Bool
is_included none id = true
is_included (some ids) id = has id ids

abbrev pub lookup_provider : Option (List String) → String → Option Provider → Lookup
lookup_provider included id none = unknown
lookup_provider included id (some p) = if is_included included id then provided p else unknown

unfoldable pub lookup : Parts → String → Lookup
lookup parts id =
    if str_eq id "doxa:logger"
    then ready logger
    else if has id parts.configurations
    then ready (configuration id)
    else lookup_provider parts.included id (by_id parts.providers id)

-- `singletonInstances.get(id)`
unfoldable pub find_instance : String → List Participant → Option Instance
find_instance id [] = none
find_instance id (p ∷ ps) =
    let later = find_instance id ps in if str_eq p.id id then some p.instance_of_id else later

abbrev pub participant : String → Instance → Participant
participant id i = record { id = id; instance_of_id = i }

abbrev pub add_participant : String → Instance → State → State
add_participant id i s = record s { participants = participant id i ∷ s.participants }

abbrev pub is_by_constructor : DependencyKind → Bool
is_by_constructor by_constructor = true
is_by_constructor by_role = false

unfoldable pub constructor_dependencies : List Dependency → List Dependency
constructor_dependencies [] = []
constructor_dependencies (d ∷ ds) =
    let later = constructor_dependencies ds in if is_by_constructor d.kind then d ∷ later else later

-- The dependencies of an override: their instances are not used.
abbrev pub resolve_target :
    (String → State → Result (Option Instance)) → Option String → State → Result Unit
resolve_target call none s = done tt s
resolve_target call (some t) s = call t s >>= λ o s'. done tt s'

unfoldable pub resolve_targets :
    (String → State → Result (Option Instance)) → List Dependency → State → Result Unit
resolve_targets call [] s = done tt s
resolve_targets call (d ∷ ds) s =
    resolve_target call (target d) s >>= λ u s'. resolve_targets call ds s'

abbrev pub demand : String → String → Bool → Option Instance → State → Result (Option Instance)
demand id t optional (some i) s = done (some i) s
demand id t optional none s = if not optional then failed (unavailable t id) else done none s

abbrev pub resolve_argument :
    (String → State → Result (Option Instance))
    → String
    → Bool
    → Option String
    → State
    → Result (Option Instance)
resolve_argument call id optional none s = done none s
resolve_argument call id optional (some t) s = call t s >>= λ o s'. demand id t optional o s'

unfoldable pub resolve_arguments :
    (String → State → Result (Option Instance))
    → String
    → List Dependency
    → State
    → Result (List (Option Instance))
resolve_arguments call id [] s = done [] s
resolve_arguments call id (d ∷ ds) s = resolve_argument call id d.optional (target d) s >>= λ a s'.
    resolve_arguments call id ds s' >>= λ args s''. done (a ∷ args) s''

-- `new Constructor(...dependencies)`, and what follows it.
unfoldable pub instantiate :
    Parts → String → Provider → List (Option Instance) → State → Result (Option Instance)
instantiate parts id p args s =
    let i = constructed (length s.calls) in
    let s' = record s { calls = record { id = id; arguments = args } ∷ s.calls } in
    if parts.throws id args
    then failed (constructor_throws id)
    else if is_singleton p.scope
    then done (some i) (add_participant id i s')
    else done (some i) s'

unfoldable pub construct :
    Parts
    → (String → State → Result (Option Instance))
    → String
    → Provider
    → State
    → Result (Option Instance)
construct parts call id p s =
    if has id parts.overrides
    then (resolve_targets call p.dependencies s >>= λ u s'.
        done (some (overriding id)) (add_participant id (overriding id) s'))
    else if not (parts.has_constructor id)
    then failed (missing_constructor id)
    else (resolve_arguments call id (constructor_dependencies p.dependencies) s >>= λ args s'.
        instantiate parts id p args s')

-- The `finally`; after an error the state is not used.
abbrev pub leave : String → Result (Option Instance) → Result (Option Instance)
leave id r = r >>= λ o s. done o (record s { stack = delete id s.stack })

unfoldable pub resolve_provider :
    Parts
    → (String → State → Result (Option Instance))
    → String
    → Provider
    → Option Instance
    → State
    → Result (Option Instance)
resolve_provider parts call id p (some i) s = done (some i) s
resolve_provider parts call id p none s =
    if has id s.stack
    then failed (cyclic id)
    else leave id (construct parts call id p (record s { stack = id ∷ s.stack }))

abbrev pub singleton_instance : Provider → String → State → Option Instance
singleton_instance p id s = if is_singleton p.scope then find_instance id s.participants else none

abbrev pub resolve_lookup :
    Parts
    → (String → State → Result (Option Instance))
    → String
    → Lookup
    → State
    → Result (Option Instance)
resolve_lookup parts call id (ready i) s = done (some i) s
resolve_lookup parts call id unknown s = done none s
resolve_lookup parts call id (provided p) s =
    resolve_provider parts call id p (singleton_instance p id s) s

unfoldable pub resolve : Parts → ℕ → String → State → Result (Option Instance)
resolve parts zero id s = out_of_fuel
resolve parts (suc fuel) id s =
    resolve_lookup parts (λ t s'. resolve parts fuel t s') id (lookup parts id) s

-- The loop over the providers, which the caller sorts by their ids.
unfoldable pub construct_each : Parts → List Provider → State → Result Unit
construct_each parts [] s = done tt s
construct_each parts (p ∷ ps) s =
    if is_singleton p.scope && is_included parts.included p.id
    then (resolve parts (suc (length parts.providers)) p.id s >>= λ o s'.
        construct_each parts ps s')
    else construct_each parts ps s

abbrev pub declares_singleton : Option Provider → Bool
declares_singleton none = false
declares_singleton (some p) = is_singleton p.scope

-- The test of the overrides, before anything is constructed.
unfoldable pub refused_override : List Provider → List String → Option String
refused_override ps [] = none
refused_override ps (id ∷ ids) =
    let later = refused_override ps ids in
    if not (declares_singleton (by_id ps id)) then some id else later

abbrev pub unless_refused : Option String → Result Unit → Result Unit
unless_refused (some id) r = failed (undeclared_override id)
unless_refused none r = r

abbrev pub no_instances : State
no_instances = record { participants = []; calls = []; stack = [] }

unfoldable pub construct_singleton_graph : Parts → List Provider → Result Unit
unfolding construct_each resolve resolve_provider lookup find_instance construct instantiate
    resolve_arguments resolve_targets constructor_dependencies refused_override by_id target has
    delete
construct_singleton_graph parts sorted =
    unless_refused (refused_override parts.providers parts.overrides)
      (construct_each parts sorted no_instances)
