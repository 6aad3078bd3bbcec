-- ===== src/Runtime/Lifecycle.antt =====
-- packages/runtime/src/lifecycle.ts. Time is in milliseconds; what wins each race between a
-- lifecycle method and its timer is decided by an environment.
pub mod Calls
pub mod Accounting
pub mod Budget
mod Tests
use doxajs.Base.{
  ℕ, ◌+◌, ◌-◌, min, String, Bool, true, false, Option, none, some, List, [], ◌∷◌, ◌++◌, reverse,
  leb, if◌then◌else◌,
}

pub data Phase : Type 0 where
  start drain stop dispose : Phase

-- `manifest.lifecycle`
pub record Hooks : Type 0 where
  pub has_start : Bool
  pub has_drain : Bool
  pub has_stop : Bool
  pub has_dispose : Bool

abbrev pub declares : Hooks → Phase → Bool
declares h start = h.has_start
declares h drain = h.has_drain
declares h stop = h.has_stop
declares h dispose = h.has_dispose

-- `callable` is `typeof instance[phase] === 'function'`.
pub record Participant : Type 0 where
  pub id : String
  pub hooks : Hooks
  pub callable : Phase → Bool

pub record Deadlines : Type 0 where
  pub start : ℕ
  pub drain : ℕ
  pub stop : ℕ
  pub dispose : ℕ
  pub cleanup : ℕ

-- `UnsettledLifecyclePhase`
pub record PhaseOf : Type 0 where
  pub participant_id : String
  pub phase : Phase

-- The errors that the functions throw or collect; a rejected method gives any reason.
pub data Failure (R : Type 0) : Type 0 where
  not_callable : PhaseOf → Failure R
  rejected : R → Failure R
  timed_out : PhaseOf → ℕ → Failure R
  cleanup_timed_out : ℕ → List PhaseOf → Failure R

-- One call of `invokeLifecycle`: what it was for, when it was made, and with which timeout.
pub record Invocation : Type 0 where
  pub target : PhaseOf
  pub made_at : ℕ
  pub timeout : ℕ

-- The clock, and the calls of `invokeLifecycle` so far, oldest first.
pub record State : Type 0 where
  pub now : ℕ
  pub invoked : List Invocation

-- How `Promise.race([settlement, timeoutPromise])` ends, and after how long.
pub data Race (R : Type 0) : Type 0 where
  fulfills : ℕ → Race R
  rejects : R → ℕ → Race R
  expires : ℕ → Race R

-- The methods of the application and the timers: what each call meets, after the calls before it.
abbrev pub Environment : Type 0 → Type 0
Environment R = List Invocation → Invocation → Race R

abbrev pub target_of : Participant → Phase → PhaseOf
target_of p phase = record { participant_id = p.id; phase = phase }

module _ {R : Type 0} (env : Environment R) where
  abbrev settle : Invocation → Race R → State → Option (Failure R) × State
  settle i (fulfills elapsed) s = (none, record s { now = s.now + elapsed })
  settle i (rejects reason elapsed) s = (some (rejected reason), record s { now = s.now + elapsed })
  settle i (expires elapsed) s =
      (some (timed_out i.target (i.made_at + i.timeout)), record s { now = s.now + elapsed })

  abbrev record_call : Invocation → State → State
  record_call i s = record s { invoked = s.invoked ++ i ∷ [] }

  -- `none` is a normal return, `some` what it throws.
  unfoldable pub invoke_lifecycle : Participant → Phase → ℕ → State → Option (Failure R) × State
  invoke_lifecycle p phase timeout s =
      let i : Invocation = record {
        target = target_of p phase;
        made_at = s.now;
        timeout = timeout;
      } in
      if p.callable phase
      then settle i (env s.invoked i) (record_call i s)
      else (some (not_callable (target_of p phase)), record_call i s)

  abbrev note : Option (Failure R) → List (Failure R) → List (Failure R)
  note none errors = errors
  note (some f) errors = errors ++ f ∷ []

  -- `invokePhase`: a failure is collected and the loop goes on.
  unfoldable pub invoke_phase :
      List Participant → Phase → ℕ → List (Failure R) → State → List (Failure R) × State
  invoke_phase [] phase timeout errors s = (errors, s)
  invoke_phase (p ∷ ps) phase timeout errors s = elim (declares p.hooks phase) [
    | true ↦
        let (thrown, s') = invoke_lifecycle p phase timeout s in
        invoke_phase ps phase timeout (note thrown errors) s'
    | false ↦ invoke_phase ps phase timeout errors s
  ]

-- The phases of one kind that the participants declare.
unfoldable pub declared : Phase → List Participant → List PhaseOf
declared phase [] = []
declared phase (p ∷ ps) =
    let rest = declared phase ps in
    if declares p.hooks phase then target_of p phase ∷ rest else rest

-- `remainingCleanupPhases`: the indices are the lists of what is left, `rest` of the participants
-- in the current phase, and all participants in the phases behind it.
unfoldable pub remaining_cleanup_phases :
    List Participant → Phase → List Participant → List (Phase × ℕ) → List PhaseOf
unfolding declared
remaining_cleanup_phases all current rest [] = declared current rest
remaining_cleanup_phases all current rest ((next, _) ∷ later) =
    declared current rest ++ remaining_cleanup_phases all next all later

-- `pendingCleanupPhases`
unfoldable pub pending_cleanup_phases : List Participant → Participant → List PhaseOf
unfolding remaining_cleanup_phases
pending_cleanup_phases started pending =
    target_of pending start
    ∷ remaining_cleanup_phases (reverse started) stop (reverse started) ((dispose, 0) ∷ [])

-- `goes_on` leaves the loop at its end, `returns` by its `return`.
pub data Loop (R : Type 0) : Type 0 where
  goes_on : List (Failure R) → State → Loop R
  returns : List (Failure R) → State → Loop R

module _ {R : Type 0} (env : Environment R) (deadline : ℕ) (all : List Participant) where
  -- The `try` and the `catch` around the call.
  abbrev after_call :
      List PhaseOf
      → List (Failure R)
      → Option (Failure R)
      → State
      → (List (Failure R) → State → Loop R)
      → Loop R
  after_call unsettled errors none s k = k errors s
  after_call unsettled errors (some f) s k =
      if leb deadline s.now
      then returns (errors ++ (f ∷ cleanup_timed_out deadline unsettled ∷ [])) s
      else k (errors ++ f ∷ []) s

  -- One round on a participant that declares the phase; `k` is the rest of the loop.
  unfoldable pub unwind_one :
      Phase
      → ℕ
      → List (Phase × ℕ)
      → Participant
      → List Participant
      → List (Failure R)
      → State
      → (List (Failure R) → State → Loop R)
      → Loop R
  unwind_one phase timeout later p ps errors s k =
      let unsettled = remaining_cleanup_phases all phase (p ∷ ps) later in
      if leb deadline s.now
      then returns (errors ++ cleanup_timed_out deadline unsettled ∷ []) s
      else let (thrown, s') = invoke_lifecycle env p phase (min timeout (deadline - s.now)) s in
        after_call unsettled errors thrown s' k

  -- The inner loop of `unwindStartup`, over the participants of one phase.
  unfoldable pub unwind_phase :
      Phase → ℕ → List (Phase × ℕ) → List Participant → List (Failure R) → State → Loop R
  unwind_phase phase timeout later [] errors s = goes_on errors s
  unwind_phase phase timeout later (p ∷ ps) errors s = elim (declares p.hooks phase) [
    | true ↦
        unwind_one phase timeout later p ps errors s
          (λ e t. unwind_phase phase timeout later ps e t)
    | false ↦ unwind_phase phase timeout later ps errors s
  ]

  -- A `return` in the inner loop leaves the outer one too.
  abbrev and_then : Loop R → (List (Failure R) → State → Loop R) → Loop R
  and_then (goes_on errors s) k = k errors s
  and_then (returns errors s) k = returns errors s

  -- The outer loop, over the phases.
  unfoldable pub unwind_phases : List (Phase × ℕ) → List (Failure R) → State → Loop R
  unwind_phases [] errors s = goes_on errors s
  unwind_phases ((phase, timeout) ∷ later) errors s =
      and_then (unwind_phase phase timeout later all errors s) (λ e t. unwind_phases later e t)

-- What the loops leave: the errors and the state.
abbrev pub leave : {R : Type 0} → Loop R → List (Failure R) × State
leave (goes_on errors s) = (errors, s)
leave (returns errors s) = (errors, s)
