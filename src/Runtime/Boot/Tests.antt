-- ===== src/Runtime/Boot/Tests.antt =====
-- A boot whose second participant meets its deadline, and a shutdown.
use doxajs.Base.{
  ℕ, String, true, none, List, [], ◌∷◌, ◌++◌, reverse, ◌≡◌, refl, str_eq, if◌then◌else◌,
}
use doxajs.Runtime.Lifecycle.{
  drain, stop, dispose, Hooks, Participant, Deadlines, State, fulfills, expires, Environment,
  declared, invoke_lifecycle,
}
use doxajs.Runtime.Lifecycle.Calls.{targets}
use doxajs.Runtime.Unwind.{Late, rejects_late}
use doxajs.Runtime.Boot.{
  boot, state_after_boot, stopped, Drain, perform_shutdown, targets-perform_shutdown,
}

abbrev all_hooks : Hooks
all_hooks = record { has_start = true; has_drain = true; has_stop = true; has_dispose = true }

abbrev named : String → Participant
named id = record { id = id; hooks = all_hooks; callable = λ _. true }

abbrev pair : List Participant
pair = named "a" ∷ named "b" ∷ []

abbrev origin : State
origin = record { now = 100; invoked = [] }

abbrev limits : Deadlines
limits = record { start = 50; drain = 50; stop = 50; dispose = 50; cleanup = 200 }

abbrev b_hangs : Environment ℕ
b_hangs log i = if str_eq i.target.participant_id "b" then expires 50 else fulfills 1

abbrev late : Participant → ℕ → Late ℕ
late p budget = rejects_late 9 3

abbrev quiet : Drain ℕ
quiet = record { throws = none; elapsed = 0 }

b_stops_the_boot : state_after_boot (boot b_hangs late limits pair origin) ≡ stopped
unfolding boot invoke_lifecycle
b_stops_the_boot = refl

targets-perform_shutdown_example :
    targets (perform_shutdown b_hangs limits pair quiet origin).state
    ≡ targets origin
      ++ (declared drain (reverse pair)
          ++ (declared stop (reverse pair) ++ declared dispose (reverse pair)))
targets-perform_shutdown_example = targets-perform_shutdown b_hangs limits pair quiet origin
