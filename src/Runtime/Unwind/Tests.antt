-- ===== src/Runtime/Unwind/Tests.antt =====
-- Clean-ups of two participants within a budget of 20 ms.
use doxajs.Base.{ℕ, ◌+◌, String, true, none, some, List, [], ◌∷◌, ◌≡◌, refl}
use doxajs.Runtime.Lifecycle.{
  dispose, Hooks, Participant, Deadlines, State, rejects, Environment, cleanup_timed_out, rejected,
  unwind_phases, unwind_phase, unwind_one, invoke_lifecycle, remaining_cleanup_phases,
}
use doxajs.Runtime.Lifecycle.Budget.{Kept}
use doxajs.Runtime.Unwind.{
  fulfills_late, Pending, settle_within_cleanup_budget, unwind_startup, cleanup_plan, Swept,
  UnwindVerdict, unwind_startup-Swept, unwind_startup-Verdict, unwind_startup-Kept,
}

abbrev all_hooks : Hooks
all_hooks = record { has_start = true; has_drain = true; has_stop = true; has_dispose = true }

abbrev named : String → Participant
named id = record { id = id; hooks = all_hooks; callable = λ _. true }

abbrev pair : List Participant
pair = named "a" ∷ named "b" ∷ []

abbrev origin : State
origin = record { now = 100; invoked = [] }

abbrev short : Deadlines
short = record { start = 50; drain = 50; stop = 50; dispose = 50; cleanup = 20 }

-- Every call rejects with reason 7 after 8 ms, so the third one outlasts the budget.
abbrev slow : Environment ℕ
slow log i = rejects 7 8

abbrev waiting : Pending ℕ
waiting = record { participant = named "c"; settlement = some (λ budget. fulfills_late 2) }

third_is_cut :
    (unwind_startup slow short pair none origin).0
    ≡ rejected 7
      ∷ rejected 7
      ∷ rejected 7
      ∷ cleanup_timed_out 120 (
          record { participant_id = "b"; phase = dispose }
          ∷ record { participant_id = "a"; phase = dispose }
          ∷ [])
      ∷ []
unfolding unwind_startup unwind_phases unwind_phase unwind_one invoke_lifecycle
    remaining_cleanup_phases
third_is_cut = refl

unwind_startup-Swept_example :
    Swept
      (origin.now + short.cleanup)
      (cleanup_plan pair)
      []
      origin
      (unwind_startup slow short pair none origin)
unwind_startup-Swept_example = unwind_startup-Swept slow short pair origin

unwind_startup-Verdict_example :
    UnwindVerdict slow short
      (origin.now + short.cleanup)
      pair
      (named "c")
      (settle_within_cleanup_budget waiting.settlement (origin.now + short.cleanup) origin)
      (unwind_startup slow short pair (some waiting) origin)
unwind_startup-Verdict_example = unwind_startup-Verdict slow short pair waiting origin

unwind_startup-Kept_example :
    Kept 120 origin (unwind_startup slow short pair (some waiting) origin).1
unwind_startup-Kept_example = unwind_startup-Kept slow short pair (some waiting) origin
