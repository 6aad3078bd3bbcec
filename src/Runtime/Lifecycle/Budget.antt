-- ===== src/Runtime/Lifecycle/Budget.antt =====
-- The timeouts that `unwindStartup` gives stay within the cleanup deadline and the phase's own.
use doxajs.Base.{
  ℕ, ◌+◌, ◌-◌, ◌≤◌, min, Option, none, some, List, [], ◌∷◌, ◌++◌, ◌≡◌, sym, ap, ◌∙◌, append-nil,
  append_assoc, All, All-append, arith, Bool-cases, inl, inr, leb,
}
use doxajs.Runtime.Lifecycle.{
  Phase, Participant, PhaseOf, Failure, Invocation, State, Environment, declares, target_of, Loop,
  goes_on, returns, leave, after_call, unwind_one, unwind_phase, and_then, unwind_phases,
}
use doxajs.Runtime.Lifecycle.Calls.{invoked-invoke_lifecycle}

-- The timer of the call fires by the deadline.
abbrev pub InBudget : ℕ → Invocation → Type 0
InBudget deadline i = i.made_at + i.timeout ≤ deadline

-- The calls that a loop adds to the log.
pub record Kept (deadline : ℕ) (s t : State) : Type 0 where
  pub added : List Invocation
  pub log : t.invoked ≡ s.invoked ++ added
  pub in_budget : All (InBudget deadline) added

pub Kept-refl : (deadline : ℕ) (s : State) → Kept deadline s s
Kept-refl deadline s = record { added = []; log = sym (append-nil s.invoked); in_budget = tt }

pub Kept-trans :
    (deadline : ℕ) (s t u : State) → Kept deadline s t → Kept deadline t u → Kept deadline s u
Kept-trans deadline s t u a b = record {
  added = a.added ++ b.added;
  log = b.log ∙ ap (λ r. r ++ b.added) a.log ∙ append_assoc s.invoked a.added b.added;
  in_budget = All-append (InBudget deadline) a.added b.added a.in_budget b.in_budget;
}

module _ {R : Type 0} (env : Environment R) (deadline : ℕ) (all : List Participant) where
  after_call-Kept :
      (unsettled : List PhaseOf) (errors : List (Failure R)) (thrown : Option (Failure R))
      (s t : State) (k : List (Failure R) → State → Loop R)
      → Kept deadline s t
      → ((e : List (Failure R)) (u : State) → Kept deadline u (leave (k e u)).1)
      → Kept deadline s (leave (after_call env deadline all unsettled errors thrown t k)).1
  after_call-Kept unsettled errors none s t k kept rest =
      Kept-trans deadline s t _ kept (rest errors t)
  after_call-Kept unsettled errors (some f) s t k kept rest =
      elim (Bool-cases (leb deadline t.now)) [
        | inl late ↦ rw late kept
        | inr on_time ↦ rw on_time (Kept-trans deadline s t _ kept (rest (errors ++ f ∷ []) t))
      ]

  unwind_one-Kept :
      (phase : Phase) (timeout : ℕ) (later : List (Phase × ℕ)) (p : Participant)
      (ps : List Participant) (errors : List (Failure R)) (s : State)
      (k : List (Failure R) → State → Loop R)
      → ((e : List (Failure R)) (u : State) → Kept deadline u (leave (k e u)).1)
      → Kept deadline s (leave (unwind_one env deadline all phase timeout later p ps errors s k)).1
  unfolding unwind_one
  unwind_one-Kept phase timeout later p ps errors s k rest =
      elim (Bool-cases (leb deadline s.now)) [
        | inl late ↦ rw late (Kept-refl deadline s)
        | inr on_time ↦ rw on_time (
            after_call-Kept _ errors _ s _ k
              (record {
                added =
                    record {
                      target = target_of p phase;
                      made_at = s.now;
                      timeout = min timeout (deadline - s.now);
                    }
                    ∷ [];
                log = invoked-invoke_lifecycle env p phase (min timeout (deadline - s.now)) s;
                in_budget = (ground arith, tt);
              })
              rest)
      ]

  unwind_phase-Kept :
      (phase : Phase) (timeout : ℕ) (later : List (Phase × ℕ)) (ps : List Participant)
      (errors : List (Failure R)) (s : State)
      → Kept deadline s (leave (unwind_phase env deadline all phase timeout later ps errors s)).1
  unfolding unwind_phase
  unwind_phase-Kept phase timeout later [] errors s = Kept-refl deadline s
  unwind_phase-Kept phase timeout later (p ∷ ps) errors s =
      elim (Bool-cases (declares p.hooks phase)) [
        | inl has_it ↦
            rw (has_it, unwind_phase)
              (unwind_one-Kept phase timeout later p ps errors s _
                (λ e t. unwind_phase-Kept phase timeout later ps e t))
        | inr lacks_it ↦
            rw (lacks_it, unwind_phase) (unwind_phase-Kept phase timeout later ps errors s)
      ]

  and_then-Kept :
      (s : State) (o : Loop R) (k : List (Failure R) → State → Loop R)
      → Kept deadline s (leave o).1
      → ((e : List (Failure R)) (u : State) → Kept deadline u (leave (k e u)).1)
      → Kept deadline s (leave (and_then env deadline all o k)).1
  and_then-Kept s (goes_on e t) k kept rest = Kept-trans deadline s t _ kept (rest e t)
  and_then-Kept s (returns e t) k kept rest = kept

  pub unwind_phases-Kept :
      (phases : List (Phase × ℕ)) (errors : List (Failure R)) (s : State)
      → Kept deadline s (leave (unwind_phases env deadline all phases errors s)).1
  unfolding unwind_phases
  unwind_phases-Kept [] errors s = Kept-refl deadline s
  unwind_phases-Kept ((phase, timeout) ∷ later) errors s =
      and_then-Kept s (unwind_phase env deadline all phase timeout later all errors s)
        (λ e t. unwind_phases env deadline all later e t)
        (unwind_phase-Kept phase timeout later all errors s) (λ e t. unwind_phases-Kept later e t)
