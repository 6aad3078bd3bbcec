-- ===== src/Runtime/Lifecycle/Calls.antt =====
-- What one call of `invokeLifecycle` adds to the log, and the calls of a whole phase.
use doxajs.Base.{
  ℕ, ◌≤◌, true, false, Option, none, some, List, [], ◌∷◌, ◌++◌, map, ◌≡◌, refl, sym, ap, ◌∙◌,
  append-nil, append_assoc, Bool-cases, if-cases, ◌+◌, inl, inr, arith,
}
use doxajs.Runtime.Lifecycle.{
  Phase, Participant, PhaseOf, Failure, Invocation, State, Race, fulfills, rejects, expires,
  Environment, declares, target_of, settle, record_call, not_callable, rejected, timed_out,
  invoke_lifecycle, note, invoke_phase, declared,
}

-- The phases that the log names, in the order of the calls.
abbrev pub targets : State → List PhaseOf
targets s = map (λ i. i.target) s.invoked

pub targets-append :
    (is : List Invocation) (i : Invocation)
    → map (λ (j : Invocation). j.target) (is ++ i ∷ [])
      ≡ map (λ (j : Invocation). j.target) is ++ i.target ∷ []
targets-append [] i = refl
targets-append (j ∷ is) i = ap (λ r. j.target ∷ r) (targets-append is i)

pub declared-true :
    (p : Participant) (ps : List Participant) (phase : Phase)
    → declares p.hooks phase ≡ true
    → declared phase (p ∷ ps) ≡ target_of p phase ∷ declared phase ps
unfolding declared
declared-true p ps phase e = rw e

pub declared-false :
    (p : Participant) (ps : List Participant) (phase : Phase)
    → declares p.hooks phase ≡ false
    → declared phase (p ∷ ps) ≡ declared phase ps
unfolding declared
declared-false p ps phase e = rw e

pub declared-cons :
    (phase : Phase) (p : Participant) (ps : List Participant)
    → declared phase (p ∷ ps) ≡ declared phase (p ∷ []) ++ declared phase ps
unfolding declared
declared-cons phase p ps = elim (Bool-cases (declares p.hooks phase)) [
  | inl e ↦ rw e
  | inr e ↦ rw e
]

module _ {R : Type 0} (env : Environment R) where
  settle-invoked :
      (i : Invocation) (r : Race R) (s : State) → (settle env i r s).1.invoked ≡ s.invoked
  settle-invoked i (fulfills e) s = refl
  settle-invoked i (rejects r e) s = refl
  settle-invoked i (expires e) s = refl

  settle-now : (i : Invocation) (r : Race R) (s : State) → s.now ≤ (settle env i r s).1.now
  settle-now i (fulfills e) s = omega arith
  settle-now i (rejects r e) s = omega arith
  settle-now i (expires e) s = omega arith

  -- The log gains the call, with the time at which it is made.
  pub invoked-invoke_lifecycle :
      (p : Participant) (phase : Phase) (timeout : ℕ) (s : State)
      → (invoke_lifecycle env p phase timeout s).1.invoked
        ≡ s.invoked
          ++ record { target = target_of p phase; made_at = s.now; timeout = timeout } ∷ []
  unfolding invoke_lifecycle
  invoked-invoke_lifecycle p phase timeout s = elim (Bool-cases (p.callable phase)) [
    | inl yes_it_is ↦ rw yes_it_is (settle-invoked _ _ _)
    | inr missing ↦ rw missing
  ]

  -- The clock does not go back.
  pub now-invoke_lifecycle :
      (p : Participant) (phase : Phase) (timeout : ℕ) (s : State)
      → s.now ≤ (invoke_lifecycle env p phase timeout s).1.now
  unfolding invoke_lifecycle
  now-invoke_lifecycle p phase timeout s = elim (Bool-cases (p.callable phase)) [
    | inl yes_it_is ↦ rw yes_it_is (settle-now _ _ _)
    | inr missing ↦ rw missing (omega arith)
  ]

  pub targets-invoke_lifecycle :
      (p : Participant) (phase : Phase) (timeout : ℕ) (s : State)
      → targets (invoke_lifecycle env p phase timeout s).1 ≡ targets s ++ target_of p phase ∷ []
  targets-invoke_lifecycle p phase timeout s =
      ap (λ (is : List Invocation). map (λ (i : Invocation). i.target) is)
        (invoked-invoke_lifecycle p phase timeout s)
      ∙ targets-append s.invoked _

  abbrev call_of : Participant → Phase → ℕ → State → Invocation
  call_of p phase timeout s = record {
    target = target_of p phase;
    made_at = s.now;
    timeout = timeout;
  }

  abbrev passed : Participant → Phase → ℕ → ℕ → State → State
  passed p phase timeout elapsed s = record {
    now = s.now + elapsed;
    invoked = s.invoked ++ call_of p phase timeout s ∷ [];
  }

  -- How a call ends, by what the environment does: what it throws, and the state behind it.
  pub data Ended (p : Participant) (phase : Phase) (timeout : ℕ) (s : State)
      : Option (Failure R) → State → Type 0 where
    fulfilling :
        (elapsed : ℕ)
        → p.callable phase ≡ true
        → env s.invoked (call_of p phase timeout s) ≡ fulfills elapsed
        → Ended p phase timeout s none (passed p phase timeout elapsed s)
    rejecting :
        (r : R) (elapsed : ℕ)
        → p.callable phase ≡ true
        → env s.invoked (call_of p phase timeout s) ≡ rejects r elapsed
        → Ended p phase timeout s (some (rejected r)) (passed p phase timeout elapsed s)
    expiring :
        (elapsed : ℕ)
        → p.callable phase ≡ true
        → env s.invoked (call_of p phase timeout s) ≡ expires elapsed
        → Ended p phase timeout s
            (some (timed_out (target_of p phase) (s.now + timeout)))
            (passed p phase timeout elapsed s)
    missing_method :
        p.callable phase ≡ false
        → Ended p phase timeout s
            (some (not_callable (target_of p phase)))
            (record s { invoked = s.invoked ++ call_of p phase timeout s ∷ [] })

  pub invoke_lifecycle-Ended :
      (p : Participant) (phase : Phase) (timeout : ℕ) (s : State)
      → Ended p phase timeout s
          (invoke_lifecycle env p phase timeout s).0
          (invoke_lifecycle env p phase timeout s).1
  unfolding invoke_lifecycle
  invoke_lifecycle-Ended p phase timeout s =
      if-cases (λ (r : Option (Failure R) × State). Ended p phase timeout s r.0 r.1)
        (p.callable phase) _ _ (λ h. of_race (env s.invoked (call_of p phase timeout s)) refl h)
        (λ h. missing_method h)
    where
      of_race :
          (r : Race R)
          → env s.invoked (call_of p phase timeout s) ≡ r
          → p.callable phase ≡ true
          → Ended p phase timeout s
              (settle env
                (call_of p phase timeout s)
                r
                (record_call env (call_of p phase timeout s) s)).0
              (settle env
                (call_of p phase timeout s)
                r
                (record_call env (call_of p phase timeout s) s)).1
      of_race (fulfills elapsed) e h = fulfilling elapsed h e
      of_race (rejects r elapsed) e h = rejecting r elapsed h e
      of_race (expires elapsed) e h = expiring elapsed h e

  -- What the calls of a phase throw, one after the other, and the state behind them: each participant
  -- that declares the phase is called, and adds exactly what its call throws.
  pub data Threw (phase : Phase) (timeout : ℕ)
      : List Participant → State → List (Failure R) → State → Type 0 where
    nobody : {s : State} → Threw phase timeout [] s [] s
    skipped :
        {p : Participant} {ps : List Participant} {s t : State} {fs : List (Failure R)}
        → declares p.hooks phase ≡ false
        → Threw phase timeout ps s fs t
        → Threw phase timeout (p ∷ ps) s fs t
    fulfilled :
        {p : Participant} {ps : List Participant} {s t : State} {fs : List (Failure R)}
        → (u : State) → declares p.hooks phase ≡ true
        → Ended p phase timeout s none u
        → Threw phase timeout ps u fs t
        → Threw phase timeout (p ∷ ps) s fs t
    failed :
        {p : Participant} {ps : List Participant} {s t : State} {fs : List (Failure R)}
        → (f : Failure R) (u : State) → declares p.hooks phase ≡ true
        → Ended p phase timeout s (some f) u
        → Threw phase timeout ps u fs t
        → Threw phase timeout (p ∷ ps) s (f ∷ fs) t

  -- What a phase called, and the errors that it collected.
  pub record PhaseRun (ps : List Participant) (phase : Phase) (timeout : ℕ)
      (errors : List (Failure R)) (s : State) (after : List (Failure R) × State) : Type 0 where
    pub called : targets after.1 ≡ targets s ++ declared phase ps
    pub thrown : List (Failure R)
    pub threw : Threw phase timeout ps s thrown after.1
    pub collected : after.0 ≡ errors ++ thrown

  skip-PhaseRun :
      (p : Participant) (ps : List Participant) (phase : Phase) (timeout : ℕ)
      (errors : List (Failure R)) (s : State) (after : List (Failure R) × State)
      → declares p.hooks phase ≡ false
      → PhaseRun ps phase timeout errors s after
      → PhaseRun (p ∷ ps) phase timeout errors s after
  skip-PhaseRun p ps phase timeout errors s after e run = record {
    called = rw (declared-false p ps phase e) run.called;
    thrown = run.thrown;
    threw = skipped e run.threw;
    collected = run.collected;
  }

  -- The calls of a phase, when the first is made and throws what `r` says.
  extend-PhaseRun :
      (p : Participant) (ps : List Participant) (phase : Phase) (timeout : ℕ)
      (errors : List (Failure R)) (s : State) (r : Option (Failure R) × State)
      (after : List (Failure R) × State)
      → Ended p phase timeout s r.0 r.1
      → targets r.1 ≡ targets s ++ target_of p phase ∷ []
      → declares p.hooks phase ≡ true
      → PhaseRun ps phase timeout (note env r.0 errors) r.1 after
      → PhaseRun (p ∷ ps) phase timeout errors s after
  extend-PhaseRun p ps phase timeout errors s (o, u) after e one has_it run = with_result o e run
    where
      calls :
          targets u ≡ targets s ++ target_of p phase ∷ []
          → targets after.1 ≡ targets u ++ declared phase ps
          → targets after.1 ≡ targets s ++ declared phase (p ∷ ps)
      calls h k = rw (declared-true p ps phase has_it) (
          k
          ∙ ap (λ ts. ts ++ declared phase ps) h
          ∙ append_assoc (targets s) (target_of p phase ∷ []) (declared phase ps))

      with_result :
          (q : Option (Failure R))
          → Ended p phase timeout s q u
          → PhaseRun ps phase timeout (note env q errors) u after
          → PhaseRun (p ∷ ps) phase timeout errors s after
      with_result none e' run' = record {
        called = calls one run'.called;
        thrown = run'.thrown;
        threw = fulfilled u has_it e' run'.threw;
        collected = run'.collected;
      }
      with_result (some f) e' run' = record {
        called = calls one run'.called;
        thrown = f ∷ run'.thrown;
        threw = failed f u has_it e' run'.threw;
        collected = run'.collected ∙ append_assoc errors (f ∷ []) run'.thrown;
      }

  -- `invoke_phase` calls each participant that declares the phase, in order and once, whatever the
  -- calls throw; exactly what they throw is added, in their order, behind the errors so far.
  pub invoke_phase-PhaseRun :
      (ps : List Participant) (phase : Phase) (timeout : ℕ) (errors : List (Failure R)) (s : State)
      → PhaseRun ps phase timeout errors s (invoke_phase env ps phase timeout errors s)
  unfolding invoke_phase declared
  invoke_phase-PhaseRun [] phase timeout errors s = record {
    called = sym (append-nil _);
    thrown = [];
    threw = nobody;
    collected = sym (append-nil _);
  }
  invoke_phase-PhaseRun (p ∷ ps) phase timeout errors s =
      elim (Bool-cases (declares p.hooks phase)) [
        | inr skipped_it ↦
            rw (skipped_it, invoke_phase)
              (skip-PhaseRun p ps phase timeout errors s _ skipped_it
                (invoke_phase-PhaseRun ps phase timeout errors s))
        | inl declared_it ↦
            rw (declared_it, invoke_phase)
              (extend-PhaseRun p ps phase timeout errors s (invoke_lifecycle env p phase timeout s)
                _ (invoke_lifecycle-Ended p phase timeout s)
                (targets-invoke_lifecycle p phase timeout s) declared_it
                (invoke_phase-PhaseRun ps phase timeout _ _))
      ]
