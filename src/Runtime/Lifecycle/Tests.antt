-- ===== src/Runtime/Lifecycle/Tests.antt =====
-- A phase of two participants, one of which throws.
use doxajs.Base.{ℕ, String, true, List, [], ◌∷◌, ◌≡◌, refl, str_eq, if◌then◌else◌}
use doxajs.Runtime.Lifecycle.{
  stop, Hooks, Participant, State, fulfills, rejects, Environment, rejected, invoke_phase,
  invoke_lifecycle,
}
use doxajs.Runtime.Lifecycle.Calls.{PhaseRun, invoke_phase-PhaseRun}

abbrev all_hooks : Hooks
all_hooks = record { has_start = true; has_drain = true; has_stop = true; has_dispose = true }

abbrev named : String → Participant
named id = record { id = id; hooks = all_hooks; callable = λ _. true }

abbrev pair : List Participant
pair = named "a" ∷ named "b" ∷ []

abbrev origin : State
origin = record { now = 100; invoked = [] }

-- `a` rejects after 3 ms with reason 7, and every other call is fulfilled after 5 ms.
abbrev a_rejects : Environment ℕ
a_rejects log i = if str_eq i.target.participant_id "a" then rejects 7 3 else fulfills 5

first_fails : (invoke_phase a_rejects pair stop 50 [] origin).0 ≡ rejected 7 ∷ []
unfolding invoke_phase invoke_lifecycle
first_fails = refl

invoke_phase-PhaseRun_example :
    PhaseRun a_rejects pair stop 50 [] origin (invoke_phase a_rejects pair stop 50 [] origin)
invoke_phase-PhaseRun_example = invoke_phase-PhaseRun a_rejects pair stop 50 [] origin
