-- ===== src/Reload.antt =====
-- `HotReloadSupervisor` of packages/praxis/src/hot-reload.ts: each function is what runs between two
-- waits; `Reload.Steps` says when.
pub mod Steps
pub mod Work
pub mod Invariant
mod Tests
use doxajs.Base.{
  nat_eq, ℕ, suc, String, Bool, true, false, not, ◌&&◌, ◌||◌, Option, none, some, List, [], ◌∷◌,
  str_eq, if◌then◌else◌,
}

-- Where `#drainReloads` waits: for a fingerprint, for the build, for the fingerprint after it, for
-- the target in `previous` to stop, or for the new one to start. `ended` has returned, or thrown if it is
-- rejected, and the `finally` has not cleared `#reloadPromise` yet; `idle` has no promise.
pub data Drain : Type 0 where
  idle : Drain
  checking : Bool → Drain
  building : String → Drain
  measuring starting : Drain
  replacing : Option ℕ → Drain
  ended : Bool → Drain

-- Where `stop` waits: for the promise, or for the target. `broken` has thrown on the way.
pub data Halt : Type 0 where
  running waiting : Halt
  closing : Option ℕ → Halt
  halted broken : Halt

-- `live` are the targets that were started and not stopped, named by the order of their starts.
pub record Supervisor : Type 0 where
  pub target : Option ℕ
  pub timer : Bool
  pub requested : Bool
  pub forced : Bool
  pub drain : Drain
  pub stopping : Bool
  pub fingerprint : String
  pub halt : Halt
  pub live : List ℕ
  pub starts : ℕ

-- `HotReloadSupervisor.start`, after the first build and start.
abbrev pub started : String → Supervisor
started f = record {
  target = some 0;
  timer = false;
  requested = false;
  forced = false;
  drain = idle;
  stopping = false;
  fingerprint = f;
  halt = running;
  live = 0 ∷ [];
  starts = 1;
}

-- The test of the loop, and its first lines.
abbrev pub loop : Supervisor → Supervisor
loop s =
    if s.requested && not s.stopping
    then record s { requested = false; forced = false; drain = checking s.forced }
    else record s { drain = ended false }

abbrev pub is_idle : Drain → Bool
is_idle idle = true
is_idle d = false

abbrev pub note_request : Bool → Supervisor → Supervisor
note_request force s = record s { timer = false; requested = true; forced = s.forced || force }

-- `requestReload`
unfoldable pub request_reload : Bool → Supervisor → Supervisor
request_reload force s =
    if s.stopping
    then s
    else let s' = note_request force s in if is_idle s'.drain then loop s' else s'

-- `#scheduleReload`, and its timer.
abbrev pub schedule_reload : Supervisor → Supervisor
schedule_reload s = if s.stopping then s else record s { timer = true }

abbrev pub timer_fires : Supervisor → Supervisor
timer_fires s = request_reload false (record s { timer = false })

-- The fingerprint before the build is there.
unfoldable pub fingerprinted : Bool → String → Supervisor → Supervisor
fingerprinted force f s =
    if not force && str_eq f s.fingerprint then loop s else record s { drain = building f }

abbrev pub build_fails : String → Supervisor → Supervisor
build_fails f s = loop (record s { fingerprint = f })

-- The fingerprint after the build is there.
unfoldable pub measured : String → Supervisor → Supervisor
measured f s =
    if s.stopping
    then record s { fingerprint = f; drain = ended false }
    else record s { fingerprint = f; drain = replacing s.target }

-- A target that was captured before the wait has stopped; the others run on.
unfoldable pub without : Option ℕ → List ℕ → List ℕ
without none live = live
without (some n) [] = []
without (some n) (m ∷ ms) = let rest = without (some n) ms in if nat_eq m n then rest else m ∷ rest

-- `previous`, if any, has stopped.
unfoldable pub target_stopped : Option ℕ → Supervisor → Supervisor
target_stopped previous s =
    let live = without previous s.live in
    if s.stopping
    then record s { target = none; live = live; drain = ended false }
    else record s { target = none; live = live; drain = starting }

-- The new target has started.
abbrev pub target_started : Supervisor → Supervisor
target_started s =
    loop (record s { target = some s.starts; live = s.starts ∷ s.live; starts = suc s.starts })

abbrev pub break_if : Bool → Halt → Halt
break_if true waiting = broken
break_if r h = h

-- The `finally` of `requestReload`; a `stop` that waits for a rejected promise throws.
abbrev pub reload_ends : Bool → Supervisor → Supervisor
reload_ends rejected s = record s { drain = idle; halt = break_if rejected s.halt }

-- `stop`, up to its first wait.
unfoldable pub stop : Supervisor → Supervisor
stop s = if s.stopping then s else record s { stopping = true; timer = false; halt = waiting }

-- `stop`, once there is no promise to wait for.
abbrev pub stop_target : Supervisor → Supervisor
stop_target s = record s { target = none; halt = closing s.target }

-- The target that `stop_target` captured, if any, has stopped.
abbrev pub stop_ends : Option ℕ → Supervisor → Supervisor
stop_ends captured s = record s { live = without captured s.live; halt = halted }
