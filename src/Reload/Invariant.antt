-- ===== src/Reload/Invariant.antt =====
-- One target at a time, and none after `stop`.
use doxajs.Base.{
  sym, ℕ, suc, String, true, false, not, ◌&&◌, ◌≡◌, refl, ap, ◌∙◌, ◌≤◌, inl, inr, Option, none,
  some, [], ◌∷◌, length, str_eq, if-cases, arith,
}
use doxajs.Reload.{
  without, Halt, Drain, idle, checking, building, measuring, replacing, starting, ended, waiting,
  closing, halted, broken, Supervisor, started, fingerprinted, measured, target_stopped, stop,
  stop_target, stop_ends, target_started,
}
use doxajs.Reload.Steps.{
  Step, request, change, timer, read, unreadable, built, unbuilt, read_again, unreadable_again,
  stopped, unstopped, launched, unlaunched, settled, stop_called, stop_goes_on, stop_finishes,
  stop_throws, Reach, here, next,
}
use doxajs.Reload.Work.{
  listed, length-listed, Work, Inv, works, closes, rests, breaks, Work-of_drain, moved,
  without-listed, loop-Inv, Work-of_running, request_reload-Inv, retimed, with_fingerprint,
  reload_ends-Inv,
}

target_stopped-Inv :
    (o : Option ℕ) (s : Supervisor) → Work s → s.drain ≡ replacing o → Inv (target_stopped o s)
unfolding target_stopped
target_stopped-Inv o s w e =
    let none_left : without o s.live ≡ [] =
      ap (without o) (w.owned ∙ ap listed (sym (w.captured o e))) ∙ without-listed o in
    if-cases Inv s.stopping _ _
      (λ h. works (record {
        phase = w.phase;
        owned = none_left;
        emptied = λ e'. refl;
        captured = λ p e'. absurd (cc);
      }))
      (λ h. works (record {
        phase = w.phase;
        owned = none_left;
        emptied = λ e'. refl;
        captured = λ p e'. absurd (cc);
      }))

target_started-Inv : (s : Supervisor) → Work s → s.drain ≡ starting → Inv (target_started s)
target_started-Inv s w e =
    let empty : s.live ≡ [] = w.owned ∙ ap listed (w.emptied e) in
    loop-Inv
      (record s {
        drain = measuring;
        target = some s.starts;
        live = s.starts ∷ s.live;
        starts = suc s.starts;
      })
      (record {
        phase = w.phase;
        owned = ap (λ l. s.starts ∷ l) empty;
        emptied = λ h. absurd (cc);
        captured = λ o e'. absurd (cc);
      })

stop_target-Inv : (s : Supervisor) → Inv s → s.halt ≡ waiting → s.drain ≡ idle → Inv (stop_target s)
stop_target-Inv s (works w) h i = elim w.phase [
  | inl (r, n) ↦ absurd (cc)
  | inr (r, n) ↦ closes s.target refl n i w.owned
]
stop_target-Inv s (closes o r b i l) h e = absurd (cc)
stop_target-Inv s (rests r b i l) h e = absurd (cc)
stop_target-Inv s (breaks r b i l) h e = absurd (cc)

stop-Inv : (s : Supervisor) → Inv s → Inv (stop s)
unfolding stop
stop-Inv s v =
    if-cases Inv s.stopping _ _ (λ h. v)
      (λ h.
        let w = Work-of_running s v h in
        works (record {
          phase = inr (refl, refl);
          owned = w.owned;
          emptied = w.emptied;
          captured = w.captured;
        }))

of_closing : Halt → Option ℕ
of_closing (closing o) = o
of_closing h = none

same_capture : (s : Supervisor) (p o : Option ℕ) → s.halt ≡ closing p → s.halt ≡ closing o → p ≡ o
unfolding of_closing
same_capture s p o r h = sym (ap of_closing r) ∙ ap of_closing h

closing-rests : (s : Supervisor) → Inv s → (o : Option ℕ) → s.halt ≡ closing o → Inv (stop_ends o s)
closing-rests s (works w) o h = elim w.phase [ inl (r, n) ↦ absurd (cc) | inr (r, n) ↦ absurd (cc) ]
closing-rests s (closes p r b i l) o h =
    rests refl b i (
      ap (without o) l ∙ ap (λ q. without o (listed q)) (same_capture s p o r h) ∙ without-listed o)
closing-rests s (rests r b i l) o h = absurd (cc)
closing-rests s (breaks r b i l) o h = absurd (cc)

closing-breaks :
    (s : Supervisor)
    → Inv s
    → (o : Option ℕ) → s.halt ≡ closing o
    → Inv (record s { halt = broken })
closing-breaks s (works w) o h = elim w.phase [
  | inl (r, n) ↦ absurd (cc)
  | inr (r, n) ↦ absurd (cc)
]
closing-breaks s (closes p r b i l) o h = breaks refl b i (length-listed p s.live l)
closing-breaks s (rests r b i l) o h = absurd (cc)
closing-breaks s (breaks r b i l) o h = absurd (cc)

of_replacing : Option ℕ → Drain → Option ℕ
of_replacing o (replacing p) = p
of_replacing o d = o

Step-Inv : (s t : Supervisor) → Step s t → Inv s → Inv t
unfolding fingerprinted measured of_replacing
Step-Inv s t (request force) v = request_reload-Inv force s v
Step-Inv s t change v = if-cases Inv s.stopping _ _ (λ h. v) (λ h. retimed true s v)
Step-Inv s t (timer h) v = request_reload-Inv false (record s { timer = false }) (retimed false s v)
Step-Inv s t (read force f h) v =
    let w = Work-of_drain s (checking force) v h refl in
    if-cases Inv (not force && str_eq f s.fingerprint) _ _ (λ _. loop-Inv s w)
      (λ _. moved s (building f) (λ e. cc) (λ o e. absurd (cc)) w)
Step-Inv s t (unreadable force h) v =
    moved s (ended true) (λ e. cc) (λ o e. absurd (cc)) (Work-of_drain s (checking force) v h refl)
Step-Inv s t (built f h) v =
    moved s measuring (λ e. cc) (λ o e. absurd (cc)) (Work-of_drain s (building f) v h refl)
Step-Inv s t (unbuilt f h) v =
    loop-Inv (record s { fingerprint = f })
      (with_fingerprint f s (Work-of_drain s (building f) v h refl))
Step-Inv s t (read_again f h) v =
    let w = with_fingerprint f s (Work-of_drain s measuring v h refl) in
    if-cases Inv s.stopping _ _
      (λ _. moved (record s { fingerprint = f }) (ended false) (λ e. cc) (λ o e. absurd (cc)) w)
      (λ _.
        moved (record s { fingerprint = f }) (replacing s.target) (λ e. cc)
          (λ o e. sym (ap (of_replacing s.target) e)) w)
Step-Inv s t (unreadable_again h) v =
    moved s (ended true) (λ e. cc) (λ o e. absurd (cc)) (Work-of_drain s measuring v h refl)
Step-Inv s t (stopped o h) v = target_stopped-Inv o s (Work-of_drain s (replacing o) v h refl) h
Step-Inv s t (unstopped o h) v = loop-Inv s (Work-of_drain s (replacing o) v h refl)
Step-Inv s t (launched h) v = target_started-Inv s (Work-of_drain s starting v h refl) h
Step-Inv s t (unlaunched h) v = loop-Inv s (Work-of_drain s starting v h refl)
Step-Inv s t (settled r h) v = reload_ends-Inv r s (Work-of_drain s (ended r) v h refl)
Step-Inv s t stop_called v = stop-Inv s v
Step-Inv s t (stop_goes_on h i) v = stop_target-Inv s v h i
Step-Inv s t (stop_finishes o h) v = closing-rests s v o h
Step-Inv s t (stop_throws o h) v = closing-breaks s v o h

started-Inv : (f : String) → Inv (started f)
started-Inv f = works (record {
  phase = inl (refl, refl);
  owned = refl;
  emptied = λ e. absurd (cc);
  captured = λ o e'. absurd (cc);
})

Reach-Inv : (f : String) (s : Supervisor) → Reach (started f) s → Inv s
Reach-Inv f s here = started-Inv f
Reach-Inv f s (next {t} r st) = Step-Inv t s st (Reach-Inv f t r)

-- In every reachable state at most one target runs; once `stop` has ended none does, and no reload is
-- under way.
pub Reach-single :
    (f : String) (s : Supervisor)
    → Reach (started f) s
    → (length s.live ≤ 1) × (s.halt ≡ halted → (s.live ≡ []) × (s.drain ≡ idle))
Reach-single f s r = single s (Reach-Inv f s r)
  where
    single :
        (s : Supervisor)
        → Inv s
        → (length s.live ≤ 1) × (s.halt ≡ halted → (s.live ≡ []) × (s.drain ≡ idle))
    single s (works w) = (
      length-listed s.target s.live w.owned,
      λ h. elim w.phase [ inl (q, n) ↦ absurd (cc) | inr (q, n) ↦ absurd (cc) ],
    )
    single s (closes o q b i l) = (length-listed o s.live l, λ h. absurd (cc))
    single s (rests q b i l) = (rw l (omega arith), λ h. (l, i))
    single s (breaks q b i l) = (l, λ h. absurd (cc))
