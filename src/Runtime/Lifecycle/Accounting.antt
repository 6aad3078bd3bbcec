-- ===== src/Runtime/Lifecycle/Accounting.antt =====
-- `unwindStartup` accounts for every phase: what its loops call, and what its timeout error lists.
use doxajs.Base.{
  ℕ, ◌-◌, min, Option, none, some, List, [], ◌∷◌, ◌++◌, ◌≡◌, refl, sym, ap, ◌∙◌, append-nil,
  append_assoc, Bool-cases, inl, inr, leb,
}
use doxajs.Runtime.Lifecycle.{
  Phase, Participant, PhaseOf, Failure, cleanup_timed_out, State, Environment, declares, target_of,
  declared, remaining_cleanup_phases, Loop, goes_on, returns, after_call, unwind_one, unwind_phase,
  and_then, unwind_phases,
}
use doxajs.Runtime.Lifecycle.Calls.{targets, targets-invoke_lifecycle, declared-true}

-- The phases that the outer loop has before it.
abbrev pub plan : List Participant → List (Phase × ℕ) → List PhaseOf
plan all [] = []
plan all ((phase, _) ∷ later) = declared phase all ++ plan all later

pub remaining-plan :
    (all : List Participant) (current : Phase) (rest : List Participant) (later : List (Phase × ℕ))
    → remaining_cleanup_phases all current rest later ≡ declared current rest ++ plan all later
unfolding remaining_cleanup_phases
remaining-plan all current rest [] = sym (append-nil _)
remaining-plan all current rest ((next, t) ∷ later) =
    ap (λ r. declared current rest ++ r) (remaining-plan all next all later)

-- A loop that has `mine` to call, of `total` phases that are left. It calls all of `mine`; or the
-- deadline stops it, and its last error lists exactly what is left of `total`, where a call that
-- was made when the deadline passed is listed too.
pub data Accounted {R : Type 0} (deadline : ℕ) (mine total : List PhaseOf)
    (errors : List (Failure R)) (s : State) : Loop R → Type 0 where
  whole :
      {e : List (Failure R)} {t : State} (thrown : List (Failure R))
      → targets t ≡ targets s ++ mine
      → e ≡ errors ++ thrown
      → Accounted deadline mine total errors s (goes_on e t)
  stopped_before :
      {e : List (Failure R)} {t : State} (called left : List PhaseOf) (thrown : List (Failure R))
      → total ≡ called ++ left
      → targets t ≡ targets s ++ called
      → e ≡ errors ++ (thrown ++ cleanup_timed_out deadline left ∷ [])
      → Accounted deadline mine total errors s (returns e t)
  stopped_after :
      {e : List (Failure R)} {t : State} (called left : List PhaseOf) (at : PhaseOf)
      (thrown : List (Failure R))
      → total ≡ called ++ at ∷ left
      → targets t ≡ targets s ++ (called ++ at ∷ [])
      → e ≡ errors ++ (thrown ++ cleanup_timed_out deadline (at ∷ left) ∷ [])
      → Accounted deadline mine total errors s (returns e t)

module _ {R : Type 0} (deadline : ℕ) where
  -- Some calls before the rest of a loop.
  Accounted-prefix :
      (xs mine total : List PhaseOf) (errors new errors' : List (Failure R)) (s s' : State)
      (o : Loop R)
      → targets s' ≡ targets s ++ xs
      → errors' ≡ errors ++ new
      → Accounted deadline mine total errors' s' o
      → Accounted deadline (xs ++ mine) (xs ++ total) errors s o
  Accounted-prefix xs mine total errors new errors' s s' o called grown (whole thrown t e) =
      whole (new ++ thrown) (t ∙ ap (λ r. r ++ mine) called ∙ append_assoc (targets s) xs mine)
        (e ∙ ap (λ r. r ++ thrown) grown ∙ append_assoc errors new thrown)
  Accounted-prefix xs mine total errors new errors' s s' o called grown
        (stopped_before before left thrown split t e) =
      stopped_before (xs ++ before) left (new ++ thrown)
        (ap (λ r. xs ++ r) split ∙ sym (append_assoc xs before left))
        (t ∙ ap (λ r. r ++ before) called ∙ append_assoc (targets s) xs before)
        (e
          ∙ ap (λ r. r ++ (thrown ++ cleanup_timed_out deadline left ∷ [])) grown
          ∙ append_assoc errors new _
          ∙ ap (λ r. errors ++ r) (sym (append_assoc new thrown _)))
  Accounted-prefix xs mine total errors new errors' s s' o called grown
        (stopped_after before left at thrown split t e) =
      stopped_after (xs ++ before) left at (new ++ thrown)
        (ap (λ r. xs ++ r) split ∙ sym (append_assoc xs before (at ∷ left)))
        (t
          ∙ ap (λ r. r ++ (before ++ at ∷ [])) called
          ∙ append_assoc (targets s) xs (before ++ at ∷ [])
          ∙ ap (λ r. targets s ++ r) (sym (append_assoc xs before (at ∷ []))))
        (e
          ∙ ap (λ r. r ++ (thrown ++ cleanup_timed_out deadline (at ∷ left) ∷ [])) grown
          ∙ append_assoc errors new _
          ∙ ap (λ r. errors ++ r) (sym (append_assoc new thrown _)))

module _ {R : Type 0} (env : Environment R) (deadline : ℕ) (all : List Participant) where
  after_call-Accounted :
      (x : PhaseOf) (mine total unsettled : List PhaseOf) (errors : List (Failure R))
      (thrown : Option (Failure R)) (s s' : State) (k : List (Failure R) → State → Loop R)
      → unsettled ≡ x ∷ total
      → targets s' ≡ targets s ++ x ∷ []
      → ((e : List (Failure R)) (t : State) → Accounted deadline mine total e t (k e t))
      → Accounted deadline
          (x ∷ mine)
          (x ∷ total)
          errors
          s
          (after_call env deadline all unsettled errors thrown s' k)
  after_call-Accounted x mine total unsettled errors none s s' k listed called rest =
      Accounted-prefix deadline (x ∷ []) mine total errors [] errors s s' (k errors s') called
        (sym (append-nil errors)) (rest errors s')
  after_call-Accounted x mine total unsettled errors (some f) s s' k listed called rest =
      elim (Bool-cases (leb deadline s'.now)) [
        | inl late ↦ rw late (
            stopped_after [] total x (f ∷ []) refl called
              (ap (λ (u : List PhaseOf). errors ++ (f ∷ cleanup_timed_out deadline u ∷ [])) listed))
        | inr on_time ↦ rw on_time (
            Accounted-prefix deadline (x ∷ []) mine total errors (f ∷ []) (errors ++ f ∷ []) s s'
              (k (errors ++ f ∷ []) s') called refl (rest (errors ++ f ∷ []) s'))
      ]

  unwind_one-Accounted :
      (phase : Phase) (timeout : ℕ) (later : List (Phase × ℕ)) (p : Participant)
      (ps : List Participant) (mine total : List PhaseOf) (errors : List (Failure R)) (s : State)
      (k : List (Failure R) → State → Loop R)
      → remaining_cleanup_phases all phase (p ∷ ps) later ≡ target_of p phase ∷ total
      → ((e : List (Failure R)) (t : State) → Accounted deadline mine total e t (k e t))
      → Accounted deadline
          (target_of p phase ∷ mine)
          (target_of p phase ∷ total)
          errors
          s
          (unwind_one env deadline all phase timeout later p ps errors s k)
  unfolding unwind_one
  unwind_one-Accounted phase timeout later p ps mine total errors s k listed rest =
      elim (Bool-cases (leb deadline s.now)) [
        | inl late ↦ rw late (
            stopped_before [] (target_of p phase ∷ total) [] refl (sym (append-nil (targets s)))
              (ap (λ (u : List PhaseOf). errors ++ cleanup_timed_out deadline u ∷ []) listed))
        | inr on_time ↦ rw on_time (
            after_call-Accounted (target_of p phase) mine total _ errors _ s _ k listed
              (targets-invoke_lifecycle env p phase (min timeout (deadline - s.now)) s) rest)
      ]

  unwind_phase-Accounted :
      (phase : Phase) (timeout : ℕ) (later : List (Phase × ℕ)) (ps : List Participant)
      (errors : List (Failure R)) (s : State)
      → Accounted deadline
          (declared phase ps)
          (declared phase ps ++ plan all later)
          errors
          s
          (unwind_phase env deadline all phase timeout later ps errors s)
  unfolding unwind_phase declared
  unwind_phase-Accounted phase timeout later [] errors s =
      whole [] (sym (append-nil (targets s))) (sym (append-nil errors))
  unwind_phase-Accounted phase timeout later (p ∷ ps) errors s =
      elim (Bool-cases (declares p.hooks phase)) [
        | inl has_it ↦
            rw (has_it, unwind_phase)
              (unwind_one-Accounted phase timeout later p ps (declared phase ps)
                (declared phase ps ++ plan all later) errors s _
                (remaining-plan all phase (p ∷ ps) later
                  ∙ ap (λ r. r ++ plan all later) (declared-true p ps phase has_it))
                (λ e t. unwind_phase-Accounted phase timeout later ps e t))
        | inr lacks_it ↦
            rw (lacks_it, unwind_phase) (unwind_phase-Accounted phase timeout later ps errors s)
      ]

  and_then-Accounted :
      (mine later : List PhaseOf) (errors : List (Failure R)) (s : State) (o : Loop R)
      (k : List (Failure R) → State → Loop R)
      → Accounted deadline mine (mine ++ later) errors s o
      → ((e : List (Failure R)) (t : State) → Accounted deadline later later e t (k e t))
      → Accounted deadline (mine ++ later) (mine ++ later) errors s (and_then env deadline all o k)
  and_then-Accounted mine later errors s o k (whole {e} {t} thrown called grown) rest =
      Accounted-prefix deadline mine later later errors thrown e s t (k e t) called grown (rest e t)
  and_then-Accounted mine later errors s o k (stopped_before before left thrown split called grown)
        rest =
      stopped_before before left thrown split called grown
  and_then-Accounted mine later errors s o k
        (stopped_after before left at thrown split called grown) rest =
      stopped_after before left at thrown split called grown

  pub unwind_phases-Accounted :
      (phases : List (Phase × ℕ)) (errors : List (Failure R)) (s : State)
      → Accounted deadline
          (plan all phases)
          (plan all phases)
          errors
          s
          (unwind_phases env deadline all phases errors s)
  unfolding unwind_phases
  unwind_phases-Accounted [] errors s =
      whole [] (sym (append-nil (targets s))) (sym (append-nil errors))
  unwind_phases-Accounted ((phase, timeout) ∷ later) errors s =
      and_then-Accounted (declared phase all) (plan all later) errors s _ _
        (unwind_phase-Accounted phase timeout later all errors s)
        (λ e t. unwind_phases-Accounted later e t)
