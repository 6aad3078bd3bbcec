-- ===== src/Reload/Tests.antt =====
-- A request that comes as the loop has ended, and a fingerprint that cannot be read.
use doxajs.Base.{true, false, [], ◌∷◌, ◌≡◌, refl, ◌≤◌, length, some}
use doxajs.Reload.{
  without, Supervisor, idle, ended, measuring, halted, broken, started, request_reload,
  fingerprinted, measured, target_stopped, target_started, reload_ends, stop, stop_target,
  stop_ends,
}
use doxajs.Reload.Steps.{
  request, read, built, read_again, stopped, launched, settled, stop_called, stop_goes_on,
  stop_finishes, Reach, here, next,
}
use doxajs.Reload.Invariant.{Reach-single}

-- A reload, up to the end of its loop.
abbrev reloaded : Supervisor
reloaded = target_started (
    target_stopped (some 0) (
      measured "c" (record (fingerprinted true "b" (request_reload true (started "a"))) {
        drain = measuring;
      })))

reloaded-reached : Reach (started "a") reloaded
unfolding request_reload fingerprinted measured target_stopped without
reloaded-reached =
    next
      (next
        (next (next (next (next here (request true)) (read true "b" refl)) (built "b" refl))
          (read_again "c" refl))
        (stopped (some 0) refl))
      (launched refl)

-- Then it is stopped.
abbrev ended_target : Supervisor
ended_target = stop_ends (some 1) (stop_target (reload_ends false (stop reloaded)))

ended_target-reached : Reach (started "a") ended_target
unfolding request_reload fingerprinted measured target_stopped stop without
ended_target-reached =
    next
      (next (next (next reloaded-reached stop_called) (settled false refl))
        (stop_goes_on refl refl))
      (stop_finishes (some 1) refl)

Reach-single_example :
    (length ended_target.live ≤ 1)
    × (ended_target.halt ≡ halted → (ended_target.live ≡ []) × (ended_target.drain ≡ idle))
Reach-single_example = Reach-single "a" ended_target ended_target-reached

-- The request is noted, and no loop reads it.
late_request :
    let s = reload_ends false (request_reload true reloaded) in
    (s.requested ≡ true) × (s.drain ≡ idle) × (s.timer ≡ false)
unfolding request_reload fingerprinted measured target_stopped without
late_request = (refl, refl, refl)

-- `stop` throws, and the target stays.
unread_fingerprint :
    let s =
      reload_ends true (stop (record (request_reload true (started "a")) { drain = ended true })) in
    (s.halt ≡ broken) × (s.live ≡ 0 ∷ [])
unfolding request_reload stop
unread_fingerprint = (refl, refl)
