-- ===== src/Runtime/Boot.antt =====
-- `DoxaRuntime.boot` and `DoxaRuntime.shutdown` of packages/runtime/src/runtime.ts: the calls that
-- they make of the lifecycle functions and the runtime state. Logging and telemetry are left out.
mod Tests
use doxajs.Base.{
  ℕ, ◌+◌, String, Bool, true, false, Option, none, some, List, [], ◌∷◌, ◌++◌, reverse, ◌≡◌, ◌⊎◌, ap,
  ◌∙◌, append_assoc, if◌then◌else◌,
}
use doxajs.Runtime.Lifecycle.{
  Phase, start, drain, stop, dispose, Participant, PhaseOf, Deadlines, Failure, not_callable,
  rejected, timed_out, cleanup_timed_out, State, Environment, declares, target_of, invoke_lifecycle,
  invoke_phase, declared,
}
use doxajs.Runtime.Lifecycle.Calls.{targets, Threw, Ended, PhaseRun, invoke_phase-PhaseRun}
use doxajs.Runtime.Unwind.{Late, Pending, unwind_startup}

-- `RuntimeState`
pub data RuntimeState : Type 0 where
  booting ready draining stopping disposing stopped : RuntimeState

-- `failed` is the `RuntimeBootError` with its primary error and the errors of the clean-up.
pub data Boot (R : Type 0) : Type 0 where
  booted : State → Boot R
  failed : Failure R → List (Failure R) → State → Boot R

abbrev pub state_after_boot : {R : Type 0} → Boot R → RuntimeState
state_after_boot (booted s) = ready
state_after_boot (failed f es s) = stopped

module _ {R : Type 0} (env : Environment R) (late : Participant → ℕ → Late R) (d : Deadlines) where
  -- `primaryError instanceof LifecycleTimeoutError`; its promise is in `TIMEOUT_SETTLEMENTS`.
  abbrev pub pending_start : Participant → Failure R → Option (Pending R)
  pending_start p (timed_out _ _) = some (record { participant = p; settlement = some (late p) })
  pending_start p (not_callable _) = none
  pending_start p (rejected _) = none
  pending_start p (cleanup_timed_out _ _) = none

  abbrev pub give_up : List Participant → Participant → Failure R → State → Boot R
  give_up started p f s =
      let (es, t) = unwind_startup env d started (pending_start p f) s in failed f es t

  abbrev after_start :
      List Participant → Participant → Option (Failure R) × State → (State → Boot R) → Boot R
  after_start started p (none, s) k = k s
  after_start started p (some f, s) k = give_up started p f s

  -- The loop over `graph.participants`; `started` is in the order of the starts.
  unfoldable pub start_each : List Participant → List Participant → State → Boot R
  start_each started [] s = booted s
  start_each started (p ∷ ps) s = elim (declares p.hooks start) [
    | true ↦
        after_start started p (invoke_lifecycle env p start d.start s)
          (λ t. start_each (started ++ p ∷ []) ps t)
    | false ↦ start_each (started ++ p ∷ []) ps s
  ]

  unfoldable pub boot : List Participant → State → Boot R
  unfolding start_each
  boot participants s = start_each [] participants s

  -- What a boot that has started `started` does with the participants `ps` that are left: none of
  -- the starts throws; or those before `p` do not, that of `p` throws `f`, and the boot gives up.
  pub data BootRun (started ps : List Participant) (s : State) : Boot R → Type 0 where
    all_started :
        (t : State)
        → Threw env start d.start ps s [] t
        → targets t ≡ targets s ++ declared start ps
        → BootRun started ps s (booted t)
    gave_up :
        (before after : List Participant) (p : Participant) (f : Failure R) (u t : State)
        → ps ≡ before ++ p ∷ after
        → declares p.hooks start ≡ true
        → Threw env start d.start before s [] u
        → Ended env p start d.start u (some f) t
        → targets t ≡ targets s ++ (declared start before ++ target_of p start ∷ [])
        → BootRun started ps s (give_up (started ++ before) p f t)

-- `drainExecutions` is the wait for the admitted executions: what it throws, and for how long it
-- lasts, is the environment's.
pub record Drain (R : Type 0) : Type 0 where
  pub throws : Option (Failure R)
  pub elapsed : ℕ

-- `performShutdown`: an error is thrown exactly if the list of errors is not empty.
pub record Shutdown (R : Type 0) : Type 0 where
  pub errors : List (Failure R)
  pub state : State
  pub states : List RuntimeState

module _ {R : Type 0} (env : Environment R) (d : Deadlines) where
  abbrev drain_executions : Drain R → List (Failure R) → State → List (Failure R) × State
  drain_executions w errors s = (
    elim w.throws [ none ↦ errors | some f ↦ errors ++ f ∷ [] ],
    record s { now = s.now + w.elapsed },
  )

  unfoldable pub perform_shutdown : List Participant → Drain R → State → Shutdown R
  perform_shutdown participants w s =
      let backwards = reverse participants in
      let (e1, s1) = invoke_phase env backwards drain d.drain [] s in
      let (e2, s2) = drain_executions w e1 s1 in
      let (e3, s3) = invoke_phase env backwards stop d.stop e2 s2 in
      let (e4, s4) = invoke_phase env backwards dispose d.dispose e3 s3 in
      record { errors = e4; state = s4; states = draining ∷ stopping ∷ disposing ∷ stopped ∷ [] }

  -- A shutdown calls every declared `drain`, then every `stop`, then every `dispose`, each in
  -- reverse order and once, whatever the calls and the wait between them throw.
  pub targets-perform_shutdown :
      (participants : List Participant) (w : Drain R) (s : State)
      → targets (perform_shutdown participants w s).state
        ≡ targets s
          ++ (declared drain (reverse participants)
              ++ (declared stop (reverse participants) ++ declared dispose (reverse participants)))
  unfolding perform_shutdown
  targets-perform_shutdown participants w s =
      let backwards = reverse participants in
      let (e1, s1) = invoke_phase env backwards drain d.drain [] s in
      let (e2, s2) = drain_executions w e1 s1 in
      let (e3, s3) = invoke_phase env backwards stop d.stop e2 s2 in
      (invoke_phase-PhaseRun env backwards dispose d.dispose e3 s3).called
      ∙ ap (λ r. r ++ declared dispose backwards)
          ((invoke_phase-PhaseRun env backwards stop d.stop e2 s2).called
            ∙ ap (λ r. r ++ declared stop backwards)
                (invoke_phase-PhaseRun env backwards drain d.drain [] s).called)
      ∙ append_assoc (targets s ++ declared drain backwards) (declared stop backwards)
          (declared dispose backwards)
      ∙ append_assoc (targets s) (declared drain backwards)
          (declared stop backwards ++ declared dispose backwards)
