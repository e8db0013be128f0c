-- ===== src/Heartbeat/Shutdown/Steps.antt =====
-- What happens to a worker, in any order: the start of its heartbeat, heartbeats, status changes, requests,
-- rounds of the idle monitor, and shutdowns. Each coroutine is one step. The boot starts the heartbeat first of
-- all, and the step for it is only taken while no shutdown is signaled.
use gemma_vllm_worker.Base.{
  ℕ, ◌≡◌, refl, Bool, true, false, ◌&&◌, String, arith, inl, inr, Bool-cases, ◌==◌, nat_comparable,
}
use gemma_vllm_worker.Base.Int.{ℤ, is_zero}
use gemma_vllm_worker.Heartbeat.{is_heartbeat_enabled}
use gemma_vllm_worker.Heartbeat.World.{
  World, Outcome, returned, raised, cancelled, bind_outcome, handle_outcome, pure,
}
use gemma_vllm_worker.Heartbeat.Service.{
  Context, send_heartbeat, mark_healthy, start_draining, start_heartbeat,
}
use gemma_vllm_worker.Heartbeat.Shutdown.{is_running, graceful_shutdown, stop_idle_timeout}
use gemma_vllm_worker.Heartbeat.Idle.{
  increment_load, decrement_load, touch_activity, start_idle_timeout, idle_tick, is_idle_since,
}
use gemma_vllm_worker.Heartbeat.Quiet.{count_of, send_heartbeat-IsQuiet, set_status-IsQuiet}
use gemma_vllm_worker.Heartbeat.Shutdown.Runs.{
  is_signal, IsOrderly, Same-IsOrderly, graceful_shutdown-IsOrderly,
}

pub data Step (c : Context) : World → World → Type 0 where
  heartbeat_starts : (w : World) → w.shutdown_signaled ≡ false → Step c w (start_heartbeat c w)
  -- A round of the heartbeat loop, whose task runs, or the one heartbeat started beside it.
  beat :
      (now : ℕ) {w : World}
      → is_running w.heartbeat_task ≡ true
      → Step c w (send_heartbeat c now w).1
  first_beat : (now : ℕ) (w : World) → Step c w (send_heartbeat c now w).1
  healthy : (w : World) → Step c w (mark_healthy c w).1
  draining : (w : World) → Step c w (start_draining c w).1
  request_starts : (now : ℕ) (w : World) → Step c w (increment_load now w)
  request_touches : (now : ℕ) (w : World) → Step c w (touch_activity now w)
  request_ends : (now : ℕ) (w : World) → Step c w (decrement_load now w)
  idle_starts : (minutes : ℤ) (w : World) → Step c w (start_idle_timeout minutes w)
  idle :
      (now : ℕ) (minutes : ℤ) (w : World)
      → is_running w.idle_task ≡ true
      → Step c w (idle_tick minutes (graceful_shutdown c "idle-timeout") now w).1
  shutdown : (reason : String) (w : World) → Step c w (graceful_shutdown c reason w).1

pub data Reach (c : Context) (w : World) : World → Type 0 where
  here : Reach c w w
  next : {u v : World} → Reach c w u → Step c u v → Reach c w v

stop_idle_timeout-IsOrderly :
    (own : Bool) (w : World) → IsOrderly w → IsOrderly (stop_idle_timeout own w)
unfolding stop_idle_timeout
stop_idle_timeout-IsOrderly own w h = elim (Bool-cases (is_running w.idle_task)) [
  | inl on ↦ rw on (record { once = h.once; not_before = h.not_before; stopped = h.stopped })
  | inr off ↦ rw off (record { once = h.once; not_before = h.not_before; stopped = h.stopped })
]

start_idle_timeout-IsOrderly :
    (minutes : ℤ) (w : World) → IsOrderly w → IsOrderly (start_idle_timeout minutes w)
unfolding start_idle_timeout
start_idle_timeout-IsOrderly minutes w h = elim (Bool-cases (is_zero minutes)) [
  | inl off ↦ rw off h
  | inr on ↦ rw on (record { once = h.once; not_before = h.not_before; stopped = h.stopped })
]

start_heartbeat-IsOrderly :
    (c : Context) (w : World)
    → w.shutdown_signaled ≡ false
    → IsOrderly w
    → IsOrderly (start_heartbeat c w)
unfolding start_heartbeat
start_heartbeat-IsOrderly c w first h = elim (Bool-cases (is_heartbeat_enabled c.config)) [
  | inl on ↦ rw on (record {
    once = h.once;
    not_before = h.not_before;
    stopped = λ e. absurd (ground (arith, first, e));
  })
  | inr off ↦ rw off h
]

idle_tick-IsOrderly :
    (c : Context) (minutes : ℤ) (now : ℕ) (w : World)
    → IsOrderly w
    → IsOrderly (idle_tick minutes (graceful_shutdown c "idle-timeout") now w).1
unfolding idle_tick
idle_tick-IsOrderly c minutes now w h =
    elim (Bool-cases ((w.current_load == 0) && is_idle_since minutes w.last_activity now)) [
      | inl due ↦
          let v = stop_idle_timeout true w in
          let r = graceful_shutdown c "idle-timeout" v in
          let ok =
            graceful_shutdown-IsOrderly c "idle-timeout" v (stop_idle_timeout-IsOrderly true w h) in
          rw due (after (handle_outcome r.0) r.1 ok)
      | inr wait ↦ rw wait h
    ]
  where
    after :
        (o : Outcome (Unit {0})) (v : World)
        → IsOrderly v
        → IsOrderly (bind_outcome o v (λ _. pure true)).1
    after (returned a) v k = k
    after (raised m) v k = k
    after cancelled v k = k

Step-IsOrderly : (c : Context) {w w' : World} → Step c w w' → IsOrderly w → IsOrderly w'
unfolding mark_healthy start_draining increment_load touch_activity decrement_load
Step-IsOrderly c (heartbeat_starts w first) h = start_heartbeat-IsOrderly c w first h
Step-IsOrderly c (beat now {w} e) h =
    Same-IsOrderly w _ (send_heartbeat-IsQuiet is_signal c refl now (λ k d ttl s m. refl) w) h
Step-IsOrderly c (first_beat now w) h =
    Same-IsOrderly w _ (send_heartbeat-IsQuiet is_signal c refl now (λ k d ttl s m. refl) w) h
Step-IsOrderly c (healthy w) h =
    Same-IsOrderly w _ (set_status-IsQuiet is_signal c refl "healthy" (λ k f v. refl) w) h
Step-IsOrderly c (draining w) h =
    Same-IsOrderly w _ (set_status-IsQuiet is_signal c refl "draining" (λ k f v. refl) w) h
Step-IsOrderly c (request_starts now w) h = record {
  once = h.once;
  not_before = h.not_before;
  stopped = h.stopped;
}
Step-IsOrderly c (request_touches now w) h = record {
  once = h.once;
  not_before = h.not_before;
  stopped = h.stopped;
}
Step-IsOrderly c (request_ends now w) h = record {
  once = h.once;
  not_before = h.not_before;
  stopped = h.stopped;
}
Step-IsOrderly c (idle_starts minutes w) h = start_idle_timeout-IsOrderly minutes w h
Step-IsOrderly c (idle now minutes w e) h = idle_tick-IsOrderly c minutes now w h
Step-IsOrderly c (shutdown reason w) h = graceful_shutdown-IsOrderly c reason w h

-- From a worker that sent no termination signal and is not shut down, over any sequence of starts of the
-- heartbeat before a shutdown is signaled, heartbeats, status changes, requests, rounds of the idle monitor and
-- shutdowns, each of which runs by itself, and whatever Redis answers: once a shutdown is signaled the heartbeat
-- loop does not run; at most one termination signal is sent, and none before a shutdown is signaled.
pub Reach-IsOrderly :
    (c : Context) (w w' : World)
    → w.shutdown_signaled ≡ false
    → count_of is_signal w.trace ≡ 0
    → Reach c w w'
    → IsOrderly w'
Reach-IsOrderly c w w' first silent r = go r
  where
    go : {v : World} → Reach c w v → IsOrderly v
    go here = record {
      once = omega (arith, silent);
      not_before = λ e. silent;
      stopped = λ e. absurd (ground arith);
    }
    go (next r s) = Step-IsOrderly c s (go r)
