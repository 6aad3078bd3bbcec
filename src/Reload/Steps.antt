-- ===== src/Reload/Steps.antt =====
-- The steps of a supervisor: calls, timers, and the ends of what it waits for.
use doxajs.Base.{ℕ, String, Bool, true, Option, ◌≡◌}
use doxajs.Reload.{
  Supervisor, idle, checking, building, measuring, replacing, starting, ended, waiting, closing,
  broken, loop, request_reload, schedule_reload, timer_fires, fingerprinted, build_fails, measured,
  target_stopped, target_started, reload_ends, stop, stop_target, stop_ends,
}

pub data Step (s : Supervisor) : Supervisor → Type 0 where
  request : (force : Bool) → Step s (request_reload force s)
  change : Step s (schedule_reload s)
  timer : s.timer ≡ true → Step s (timer_fires s)
  read : (force : Bool) (f : String) → s.drain ≡ checking force → Step s (fingerprinted force f s)
  unreadable : (force : Bool) → s.drain ≡ checking force → Step s (record s { drain = ended true })
  built : (f : String) → s.drain ≡ building f → Step s (record s { drain = measuring })
  unbuilt : (f : String) → s.drain ≡ building f → Step s (build_fails f s)
  read_again : (f : String) → s.drain ≡ measuring → Step s (measured f s)
  unreadable_again : s.drain ≡ measuring → Step s (record s { drain = ended true })
  stopped : (o : Option ℕ) → s.drain ≡ replacing o → Step s (target_stopped o s)
  unstopped : (o : Option ℕ) → s.drain ≡ replacing o → Step s (loop s)
  launched : s.drain ≡ starting → Step s (target_started s)
  unlaunched : s.drain ≡ starting → Step s (loop s)
  settled : (rejected : Bool) → s.drain ≡ ended rejected → Step s (reload_ends rejected s)
  stop_called : Step s (stop s)
  stop_goes_on : s.halt ≡ waiting → s.drain ≡ idle → Step s (stop_target s)
  stop_finishes : (o : Option ℕ) → s.halt ≡ closing o → Step s (stop_ends o s)
  stop_throws : (o : Option ℕ) → s.halt ≡ closing o → Step s (record s { halt = broken })

pub data Reach (s : Supervisor) : Supervisor → Type 0 where
  here : Reach s s
  next : {t u : Supervisor} → Reach s t → Step t u → Reach s u
