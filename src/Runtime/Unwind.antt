-- ===== src/Runtime/Unwind.antt =====
-- `unwindStartup` of packages/runtime/src/lifecycle.ts, and what it promises.
mod Tests
use doxajs.Base.{
  ℕ, ◌+◌, ◌-◌, ◌≤◌, String, Bool, true, false, Option, none, some, List, [], ◌∷◌, ◌++◌, reverse,
  ◌≡◌, refl, sym, ap, ◌∙◌, append-nil, Bool-cases, if-cases, inl, inr, leb, if◌then◌else◌,
}
use doxajs.Runtime.Lifecycle.{
  Phase, start, stop, dispose, Participant, PhaseOf, Deadlines, Failure, rejected,
  cleanup_timed_out, Invocation, State, Environment, declared, pending_cleanup_phases, Loop,
  goes_on, returns, leave, unwind_phases, target_of, remaining_cleanup_phases,
}
use doxajs.Runtime.Lifecycle.Calls.{targets}
use doxajs.Runtime.Lifecycle.Accounting.{plan, remaining-plan, Accounted, unwind_phases-Accounted}
use doxajs.Runtime.Lifecycle.Budget.{Kept, Kept-refl, Kept-trans, unwind_phases-Kept}

-- How a `start` method that met its deadline ends while the clean-up waits for it.
pub data Late (R : Type 0) : Type 0 where
  fulfills_late : ℕ → Late R
  rejects_late : R → ℕ → Late R
  stays_pending : ℕ → Late R

-- `pendingStartup`: `settlement` is the entry of `TIMEOUT_SETTLEMENTS`, given the budget for the wait.
pub record Pending (R : Type 0) : Type 0 where
  pub participant : Participant
  pub settlement : Option (ℕ → Late R)

-- `LifecycleSettlement | undefined`
pub data Settlement (R : Type 0) : Type 0 where
  fulfilled : Settlement R
  reason : R → Settlement R
  unknown : Settlement R

abbrev after_wait : {R : Type 0} → Late R → State → Settlement R × State
after_wait (fulfills_late elapsed) s = (fulfilled, record s { now = s.now + elapsed })
after_wait (rejects_late r elapsed) s = (reason r, record s { now = s.now + elapsed })
after_wait (stays_pending elapsed) s = (unknown, record s { now = s.now + elapsed })

-- `settleWithinCleanupBudget`, for an entry that may be missing.
unfoldable pub settle_within_cleanup_budget :
    {R : Type 0} → Option (ℕ → Late R) → ℕ → State → Settlement R × State
settle_within_cleanup_budget none deadline s = (unknown, s)
settle_within_cleanup_budget (some late) deadline s =
    if leb deadline s.now then (unknown, s) else after_wait (late (deadline - s.now)) s

module _ {R : Type 0} (env : Environment R) (d : Deadlines) where
  -- The two phases over the participants that have started, last one first.
  abbrev pub sweep : ℕ → List Participant → List (Failure R) → State → Loop R
  sweep deadline completed errors s =
      unwind_phases env deadline (reverse completed) ((stop, d.stop) ∷ (dispose, d.dispose) ∷ [])
        errors s

  abbrev pub after_settlement :
      ℕ → List Participant → Participant → Settlement R × State → List (Failure R) × State
  after_settlement deadline started p (fulfilled, s) =
      leave (sweep deadline (started ++ p ∷ []) [] s)
  after_settlement deadline started p (reason r, s) =
      leave (sweep deadline started (rejected r ∷ []) s)
  after_settlement deadline started p (unknown, s) =
      (cleanup_timed_out deadline (pending_cleanup_phases started p) ∷ [], s)

  unfoldable pub unwind_startup :
      List Participant → Option (Pending R) → State → List (Failure R) × State
  unwind_startup started none s = leave (sweep (s.now + d.cleanup) started [] s)
  unwind_startup started (some p) s =
      after_settlement (s.now + d.cleanup) started p.participant
        (settle_within_cleanup_budget p.settlement (s.now + d.cleanup) s)

-- What is to be called for the participants that have started: every `stop` in reverse order of
-- the starts, then every `dispose` in that order.
abbrev pub cleanup_plan : List Participant → List PhaseOf
cleanup_plan started = declared stop (reverse started) ++ declared dispose (reverse started)

-- Everything was called; or the deadline came first, and the last error lists exactly what of the
-- plan was not called, with the call, if any, that was running when the deadline passed.
pub data Swept {R : Type 0} (deadline : ℕ) (phases : List PhaseOf) (errors : List (Failure R))
    (s : State) (after : List (Failure R) × State) : Type 0 where
  whole :
      (thrown : List (Failure R))
      → targets after.1 ≡ targets s ++ phases
      → after.0 ≡ errors ++ thrown
      → Swept deadline phases errors s after
  stopped_before :
      (called left : List PhaseOf) (thrown : List (Failure R))
      → phases ≡ called ++ left
      → targets after.1 ≡ targets s ++ called
      → after.0 ≡ errors ++ (thrown ++ cleanup_timed_out deadline left ∷ [])
      → Swept deadline phases errors s after
  stopped_after :
      (called left : List PhaseOf) (at : PhaseOf) (thrown : List (Failure R))
      → phases ≡ called ++ at ∷ left
      → targets after.1 ≡ targets s ++ (called ++ at ∷ [])
      → after.0 ≡ errors ++ (thrown ++ cleanup_timed_out deadline (at ∷ left) ∷ [])
      → Swept deadline phases errors s after

Swept-of_Accounted :
    {R : Type 0} (deadline : ℕ) (phases total : List PhaseOf) (errors : List (Failure R))
    (s : State) (o : Loop R)
    → total ≡ phases
    → Accounted deadline total total errors s o
    → Swept deadline phases errors s (leave o)
Swept-of_Accounted deadline phases total errors s o e (Accounted.whole thrown t g) =
    Swept.whole thrown (t ∙ ap (λ r. targets s ++ r) e) g
Swept-of_Accounted deadline phases total errors s o e
      (Accounted.stopped_before called left thrown split t g) =
    Swept.stopped_before called left thrown (sym e ∙ split) t g
Swept-of_Accounted deadline phases total errors s o e
      (Accounted.stopped_after called left at thrown split t g) =
    Swept.stopped_after called left at thrown (sym e ∙ split) t g

module _ {R : Type 0} (env : Environment R) (d : Deadlines) where
  sweep-Swept :
      (deadline : ℕ) (completed : List Participant) (errors : List (Failure R)) (s : State)
      → Swept deadline
          (cleanup_plan completed)
          errors
          s
          (leave (sweep env d deadline completed errors s))
  sweep-Swept deadline completed errors s =
      Swept-of_Accounted deadline (cleanup_plan completed) _ errors s _
        (ap (λ r. declared stop (reverse completed) ++ r) (append-nil _))
        (unwind_phases-Accounted env deadline (reverse completed)
          ((stop, d.stop) ∷ (dispose, d.dispose) ∷ []) errors s)

  -- What the clean-up is to do, by how the pending `start` has ended.
  abbrev pub UnwindVerdict :
      ℕ → List Participant → Participant → Settlement R × State → List (Failure R) × State → Type 0
  UnwindVerdict deadline started p (fulfilled, s) after =
      Swept deadline (cleanup_plan (started ++ p ∷ [])) [] s after
  UnwindVerdict deadline started p (reason r, s) after =
      Swept deadline (cleanup_plan started) (rejected r ∷ []) s after
  UnwindVerdict deadline started p (unknown, s) after =
      (after.0 ≡ cleanup_timed_out deadline (target_of p start ∷ cleanup_plan started) ∷ [])
      × (after.1 ≡ s)

  pending-plan :
      (started : List Participant) (p : Participant)
      → pending_cleanup_phases started p ≡ target_of p start ∷ cleanup_plan started
  unfolding pending_cleanup_phases
  pending-plan started p =
      ap (λ r. target_of p start ∷ r)
        (remaining-plan (reverse started) stop (reverse started) ((dispose, 0) ∷ [])
          ∙ ap (λ r. declared stop (reverse started) ++ r) (append-nil _))

  after_settlement-Verdict :
      (deadline : ℕ) (started : List Participant) (p : Participant) (w : Settlement R × State)
      → UnwindVerdict deadline started p w (after_settlement env d deadline started p w)
  after_settlement-Verdict deadline started p (fulfilled, s) =
      sweep-Swept deadline (started ++ p ∷ []) [] s
  after_settlement-Verdict deadline started p (reason r, s) =
      sweep-Swept deadline started (rejected r ∷ []) s
  after_settlement-Verdict deadline started p (unknown, s) =
      (ap (λ (u : List PhaseOf). cleanup_timed_out deadline u ∷ []) (pending-plan started p), refl)

  -- With no pending start, `unwind_startup` accounts for the plan of the started participants.
  pub unwind_startup-Swept :
      (started : List Participant) (s : State)
      → Swept (s.now + d.cleanup) (cleanup_plan started) [] s (unwind_startup env d started none s)
  unfolding unwind_startup
  unwind_startup-Swept started s = sweep-Swept (s.now + d.cleanup) started [] s

  -- With a pending start: if it is fulfilled within the budget its participant is swept first, as
  -- the last to start; if it is rejected its reason is the first error and the participant is not
  -- swept; if it stays pending nothing is called, and the one error lists its start and the plan.
  pub unwind_startup-Verdict :
      (started : List Participant) (p : Pending R) (s : State)
      → UnwindVerdict
          (s.now + d.cleanup)
          started
          p.participant
          (settle_within_cleanup_budget p.settlement (s.now + d.cleanup) s)
          (unwind_startup env d started (some p) s)
  unfolding unwind_startup
  unwind_startup-Verdict started p s =
      after_settlement-Verdict (s.now + d.cleanup) started p.participant _

  sweep-Kept :
      (deadline : ℕ) (completed : List Participant) (errors : List (Failure R)) (s : State)
      → Kept deadline s (leave (sweep env d deadline completed errors s)).1
  sweep-Kept deadline completed errors s =
      unwind_phases-Kept env deadline (reverse completed)
        ((stop, d.stop) ∷ (dispose, d.dispose) ∷ []) errors s

  after_settlement-Kept :
      (deadline : ℕ) (started : List Participant) (p : Participant) (w : Settlement R × State)
      → Kept deadline w.1 (after_settlement env d deadline started p w).1
  after_settlement-Kept deadline started p (fulfilled, s) =
      sweep-Kept deadline (started ++ p ∷ []) [] s
  after_settlement-Kept deadline started p (reason r, s) =
      sweep-Kept deadline started (rejected r ∷ []) s
  after_settlement-Kept deadline started p (unknown, s) = Kept-refl deadline s

  -- A wait makes no call.
  after_wait-Kept : (deadline : ℕ) (l : Late R) (s : State) → Kept deadline s (after_wait l s).1
  after_wait-Kept deadline (fulfills_late e) s = record {
    added = [];
    log = sym (append-nil s.invoked);
    in_budget = tt;
  }
  after_wait-Kept deadline (rejects_late r e) s = record {
    added = [];
    log = sym (append-nil s.invoked);
    in_budget = tt;
  }
  after_wait-Kept deadline (stays_pending e) s = record {
    added = [];
    log = sym (append-nil s.invoked);
    in_budget = tt;
  }

  settle_within-Kept :
      (o : Option (ℕ → Late R)) (deadline : ℕ) (s : State)
      → Kept deadline s (settle_within_cleanup_budget o deadline s).1
  unfolding settle_within_cleanup_budget
  settle_within-Kept none deadline s = Kept-refl deadline s
  settle_within-Kept (some late) deadline s =
      if-cases (λ (w : Settlement R × State). Kept deadline s w.1) (leb deadline s.now) _ _
        (λ _. Kept-refl deadline s) (λ _. after_wait-Kept deadline (late (deadline - s.now)) s)

  -- With or without a pending start, each call that the clean-up makes is given a timer that fires by
  -- the cleanup deadline.
  pub unwind_startup-Kept :
      (started : List Participant) (pending : Option (Pending R)) (s : State)
      → Kept (s.now + d.cleanup) s (unwind_startup env d started pending s).1
  unfolding unwind_startup
  unwind_startup-Kept started none s = sweep-Kept (s.now + d.cleanup) started [] s
  unwind_startup-Kept started (some p) s =
      Kept-trans (s.now + d.cleanup) s _ _ (settle_within-Kept p.settlement (s.now + d.cleanup) s)
        (after_settlement-Kept (s.now + d.cleanup) started p.participant _)
