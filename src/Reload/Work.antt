-- ===== src/Reload/Work.antt =====
-- What holds between the waits of a supervisor, and the reloads that keep it.
use doxajs.Base.{
  nat_eq_refl, ℕ, String, Bool, true, false, not, ◌&&◌, ◌≡◌, refl, ap, ◌≤◌, ◌⊎◌, inl, inr, Option,
  none, some, List, [], ◌∷◌, length, if-cases, arith,
}
use doxajs.Reload.{
  without, Drain, idle, replacing, starting, ended, running, waiting, closing, halted, broken,
  Supervisor, loop, note_request, is_idle, request_reload, reload_ends,
}

abbrev pub listed : Option ℕ → List ℕ
listed none = []
listed (some n) = n ∷ []

-- Before `stop` takes the target: whether it was called, the live target, and that there is none
-- while a new one starts; what is being stopped is the target.
pub record Work (s : Supervisor) : Type 0 where
  pub phase :
      ((s.halt ≡ running) × (s.stopping ≡ false)) ⊎ ((s.halt ≡ waiting) × (s.stopping ≡ true))
  pub owned : s.live ≡ listed s.target
  pub emptied : s.drain ≡ starting → s.target ≡ none
  pub captured : (o : Option ℕ) → s.drain ≡ replacing o → o ≡ s.target

-- Where a supervisor can be.
pub data Inv (s : Supervisor) : Type 0 where
  works : Work s → Inv s
  closes :
      (o : Option ℕ)
      → s.halt ≡ closing o
      → s.stopping ≡ true
      → s.drain ≡ idle
      → s.live ≡ listed o
      → Inv s
  rests : s.halt ≡ halted → s.stopping ≡ true → s.drain ≡ idle → s.live ≡ [] → Inv s
  breaks : s.halt ≡ broken → s.stopping ≡ true → s.drain ≡ idle → length s.live ≤ 1 → Inv s

pub length-listed : (o : Option ℕ) (l : List ℕ) → l ≡ listed o → length l ≤ 1
length-listed none l e = rw e (omega arith)
length-listed (some n) l e = rw e (omega arith)

-- A supervisor that is not idle still works.
pub Work-of_drain : (s : Supervisor) (d : Drain) → Inv s → s.drain ≡ d → is_idle d ≡ false → Work s
Work-of_drain s d (works w) e n = w
Work-of_drain s d (closes o h b i l) e n = absurd (cc (ap is_idle e, ap is_idle i))
Work-of_drain s d (rests h b i l) e n = absurd (cc (ap is_idle e, ap is_idle i))
Work-of_drain s d (breaks h b i l) e n = absurd (cc (ap is_idle e, ap is_idle i))

-- The wait alone changes.
pub moved :
    (s : Supervisor) (d : Drain)
    → (d ≡ starting → ⊥)
    → ((o : Option ℕ) → d ≡ replacing o → o ≡ s.target)
    → Work s
    → Inv (record s { drain = d })
moved s d other old w =
    works
      (record { phase = w.phase; owned = w.owned; emptied = λ e. absurd (other e); captured = old })

pub without-listed : (o : Option ℕ) → without o (listed o) ≡ []
unfolding without
without-listed none = refl
without-listed (some n) = rw (nat_eq_refl n) refl

pub loop-Inv : (s : Supervisor) → Work s → Inv (loop s)
loop-Inv s w =
    if-cases Inv (s.requested && not s.stopping) _ _
      (λ h. works (record {
        phase = w.phase;
        owned = w.owned;
        emptied = λ e. absurd (cc);
        captured = λ o e'. absurd (cc);
      }))
      (λ h. moved s (ended false) (λ e. cc) (λ o e. absurd (cc)) w)

-- A supervisor that has not been stopped works.
pub Work-of_running : (s : Supervisor) → Inv s → s.stopping ≡ false → Work s
Work-of_running s (works w) n = w
Work-of_running s (closes o h b i l) n = absurd (cc)
Work-of_running s (rests h b i l) n = absurd (cc)
Work-of_running s (breaks h b i l) n = absurd (cc)

pub request_reload-Inv : (force : Bool) (s : Supervisor) → Inv s → Inv (request_reload force s)
unfolding request_reload
request_reload-Inv force s v =
    if-cases Inv s.stopping _ _ (λ h. v)
      (λ h.
        let w = Work-of_running s v h in
        let w' : Work (note_request force s) = record {
          phase = w.phase;
          owned = w.owned;
          emptied = w.emptied;
          captured = w.captured;
        } in
        if-cases Inv (is_idle s.drain) _ _ (λ i. loop-Inv (note_request force s) w')
          (λ i. works w'))

pub retimed : (b : Bool) (s : Supervisor) → Inv s → Inv (record s { timer = b })
retimed b s (works w) =
    works (record { phase = w.phase; owned = w.owned; emptied = w.emptied; captured = w.captured })
retimed b s (closes o h c i l) = closes o h c i l
retimed b s (rests h c i l) = rests h c i l
retimed b s (breaks h c i l) = breaks h c i l

pub with_fingerprint : (f : String) (s : Supervisor) → Work s → Work (record s { fingerprint = f })
with_fingerprint f s w = record {
  phase = w.phase;
  owned = w.owned;
  emptied = w.emptied;
  captured = w.captured;
}

ended-running :
    (r : Bool) (s : Supervisor)
    → Work s
    → s.halt ≡ running
    → s.stopping ≡ false
    → Inv (reload_ends r s)
ended-running true s w h n = works (record {
  phase = inl (rw h refl, n);
  owned = w.owned;
  emptied = λ e. absurd (cc (ap is_idle e));
  captured = λ o e'. absurd (cc (ap is_idle e'));
})
ended-running false s w h n = works (record {
  phase = inl (rw h refl, n);
  owned = w.owned;
  emptied = λ e. absurd (cc (ap is_idle e));
  captured = λ o e'. absurd (cc (ap is_idle e'));
})

ended-waiting :
    (r : Bool) (s : Supervisor)
    → Work s
    → s.halt ≡ waiting
    → s.stopping ≡ true
    → Inv (reload_ends r s)
ended-waiting true s w h n = breaks (rw h refl) n refl (length-listed s.target s.live w.owned)
ended-waiting false s w h n = works (record {
  phase = inr (rw h refl, n);
  owned = w.owned;
  emptied = λ e. absurd (cc (ap is_idle e));
  captured = λ o e'. absurd (cc (ap is_idle e'));
})

pub reload_ends-Inv : (r : Bool) (s : Supervisor) → Work s → Inv (reload_ends r s)
reload_ends-Inv r s w = elim w.phase [
  | inl (h, n) ↦ ended-running r s w h n
  | inr (h, n) ↦ ended-waiting r s w h n
]
