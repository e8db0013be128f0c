-- ===== src/Heartbeat/Shutdown/Runs.antt =====
-- Repeated shutdowns, and shutdowns among the other things that happen to a worker.
use gemma_vllm_worker.Base.{
  ◌≤◌, ◌≡◌, refl, sym, subst, ap, ◌∙◌, Bool, true, false, List, [], ◌∷◌, String, ◌==◌,
  string_comparable, arith, inl, inr, if_true, if_false, Bool-cases,
}
use gemma_vllm_worker.Heartbeat.{is_heartbeat_enabled}
use gemma_vllm_worker.Heartbeat.World.{Command, delete, srem, publish, close, World}
use gemma_vllm_worker.Heartbeat.Service.{
  Context, get_redis, deregister, signal_termination, close_redis, termination,
}
use gemma_vllm_worker.Heartbeat.Shutdown.{
  is_running, begin_shutdown, after_signal, first_shutdown, graceful_shutdown,
}
use gemma_vllm_worker.Heartbeat.Quiet.{
  count_of, Same, Same-refl, Same-trans, IsQuiet, >>-IsQuiet, signal_termination-IsQuiet,
  close_redis-IsQuiet, deregister-IsQuiet, get_redis-IsQuiet, perform-AddsOne, AddsOne, quiet_then,
  then_quiet,
}
use gemma_vllm_worker.Heartbeat.Shutdown.Laws.{begin_shutdown_lem}

-- The commands that take the registration away.
abbrev pub is_removal : Command → Bool
is_removal (delete k) = true
is_removal (srem k m) = true
is_removal _ = false

-- Termination signals.
abbrev pub is_signal : Command → Bool
is_signal (publish k d) = true
is_signal _ = false

-- Calls of `graceful_shutdown` one after another, whatever they raise.
unfoldable pub shutdowns : Context → List String → World → World
shutdowns c [] w = w
shutdowns c (reason ∷ rs) w = shutdowns c rs (graceful_shutdown c reason w).1

module _ (c : Context) (P : Command → Bool) where
  -- Once a shutdown is signaled, further calls only close the connection.
  signaled-Same :
      P close ≡ false
      → (reason : String) (w : World) → w.shutdown_signaled ≡ true
      → Same P w (graceful_shutdown c reason w).1
  unfolding graceful_shutdown
  signaled-Same closes reason w h =
      subst (λ r. Same P w r.1)
        (sym (
          if_true w.shutdown_signaled (close_redis c w) (first_shutdown c reason (begin_shutdown w))
            h))
        (close_redis-IsQuiet P c closes w)

  pub shutdowns-Same :
      P close ≡ false
      → (rs : List String) (w : World) → w.shutdown_signaled ≡ true
      → Same P w (shutdowns c rs w)
  unfolding shutdowns
  shutdowns-Same closes [] w h = Same-refl P w
  shutdowns-Same closes (reason ∷ rs) w h =
      let one = signaled-Same closes reason w h in
      Same-trans P w _ _ one (shutdowns-Same closes rs _ (one.flag ∙ h))

pause-IsQuiet : (c : Context) → IsQuiet is_removal (first_shutdown c "idle-timeout")
unfolding first_shutdown after_signal
pause-IsQuiet c w = elim (Bool-cases (is_heartbeat_enabled c.config)) [
  | inl on ↦ rw on (
      >>-IsQuiet is_removal (signal_termination c "idle-timeout") (after_signal c "idle-timeout")
        (signal_termination-IsQuiet is_removal c refl "idle-timeout" refl) (Same-refl is_removal) w)
  | inr off ↦ rw off (Same-refl is_removal w)
]

-- A first shutdown for the idle timeout, whatever Redis answers and whatever shutdowns follow it, sends no
-- command that deletes the hash or leaves the active set: the registration is left to the control plane.
pub pause_keeps_registration :
    (c : Context) (rs : List String) (w : World)
    → w.shutdown_signaled ≡ false
    → count_of is_removal (shutdowns c ("idle-timeout" ∷ rs) w).trace ≡ count_of is_removal w.trace
unfolding shutdowns graceful_shutdown
pause_keeps_registration c rs w h =
    let (trace, open_kept, pending, flag, beat, idle) = begin_shutdown_lem w in
    let first = pause-IsQuiet c (begin_shutdown w) in
    let step =
      if_false w.shutdown_signaled (close_redis c w)
        (first_shutdown c "idle-timeout" (begin_shutdown w)) h in
    let later =
      shutdowns-Same c is_removal refl rs (first_shutdown c "idle-timeout" (begin_shutdown w)).1
        (first.flag ∙ flag) in
    ap (λ r. count_of is_removal (shutdowns c rs r.1).trace) step
    ∙ later.counted
    ∙ first.counted
    ∙ ap (count_of is_removal) trace

signal-AddsOne :
    (c : Context) (reason : String) (w : World)
    → AddsOne is_signal w (signal_termination c reason w).1
unfolding signal_termination
signal-AddsOne c reason =
    quiet_then is_signal (get_redis c) _ (get_redis-IsQuiet is_signal c refl)
      (perform-AddsOne is_signal c.redis (termination c reason))

after_signal-IsQuiet : (c : Context) (reason : String) → IsQuiet is_signal (after_signal c reason)
unfolding after_signal
after_signal-IsQuiet c reason w = elim (Bool-cases (reason == "idle-timeout")) [
  | inl pause ↦ rw pause (Same-refl is_signal w)
  | inr full ↦ rw full (
      >>-IsQuiet is_signal (deregister c) (close_redis c)
        (deregister-IsQuiet is_signal c refl (λ k. refl) (λ k m. refl))
        (close_redis-IsQuiet is_signal c refl) w)
]

first_shutdown-AddsOne :
    (c : Context) (reason : String) (w : World) → AddsOne is_signal w (first_shutdown c reason w).1
unfolding first_shutdown
first_shutdown-AddsOne c reason w = elim (Bool-cases (is_heartbeat_enabled c.config)) [
  | inl on ↦ rw on (
      then_quiet is_signal (signal_termination c reason) (after_signal c reason)
        (signal-AddsOne c reason) (after_signal-IsQuiet c reason) w)
  | inr off ↦ rw off (record { bounded = omega arith; same_flag = refl; same_heartbeat = refl })
]

-- What every worker keeps: at most one termination signal, none before a shutdown, and no heartbeat loop
-- after one.
pub record IsOrderly (w : World) : Type 0 where
  pub once : count_of is_signal w.trace ≤ 1
  pub not_before : w.shutdown_signaled ≡ false → count_of is_signal w.trace ≡ 0
  pub stopped : w.shutdown_signaled ≡ true → is_running w.heartbeat_task ≡ false

pub Same-IsOrderly : (w w' : World) → Same is_signal w w' → IsOrderly w → IsOrderly w'
Same-IsOrderly w w' s h = record {
  once = omega (arith, s.counted, h.once);
  not_before = λ e. s.counted ∙ h.not_before (sym s.flag ∙ e);
  stopped = λ e. ap is_running s.heartbeat_kept ∙ h.stopped (sym s.flag ∙ e);
}

pub graceful_shutdown-IsOrderly :
    (c : Context) (reason : String) (w : World)
    → IsOrderly w
    → IsOrderly (graceful_shutdown c reason w).1
unfolding graceful_shutdown
graceful_shutdown-IsOrderly c reason w h = elim (Bool-cases w.shutdown_signaled) [
  | inl again ↦ Same-IsOrderly w _ (signaled-Same c is_signal refl reason w again) h
  | inr first ↦
      let v = begin_shutdown w in
      let (trace, open_kept, pending, flag, beat, idle) = begin_shutdown_lem w in
      let step = if_false w.shutdown_signaled (close_redis c w) (first_shutdown c reason v) first in
      let a = first_shutdown-AddsOne c reason v in
      subst (λ r. IsOrderly r.1) (sym step)
        (record {
          once = omega (arith, a.bounded, ap (count_of is_signal) trace, h.not_before first);
          not_before = λ e. absurd (ground (arith, a.same_flag));
          stopped = λ e. ap is_running a.same_heartbeat ∙ beat;
        })
]
