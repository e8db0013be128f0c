-- ===== src/Heartbeat/Idle/Load.antt =====
-- When the idle monitor waits.
use gemma_vllm_worker.Base.{
  ℕ, ◌+◌, ◌*◌, ◌<◌, ◌≡◌, false, ◌&&◌, arith, if_false, ◌==◌, nat_comparable,
}
use gemma_vllm_worker.Base.Int.{pos}
use gemma_vllm_worker.Heartbeat.World.{World, returned, M}
use gemma_vllm_worker.Heartbeat.Idle.{
  increment_load, decrement_load, touch_activity, is_idle_since, idle_tick,
}

not_due :
    (minutes now : ℕ) (w : World)
    → (w.current_load ≡ 0 → now < w.last_activity + minutes * 60000)
    → ((w.current_load == 0) && is_idle_since (pos minutes) w.last_activity now) ≡ false
unfolding is_idle_since
not_due minutes now w h = ground arith

waits :
    (minutes now : ℕ) (callback : M (Unit {0})) (w : World)
    → (w.current_load ≡ 0 → now < w.last_activity + minutes * 60000)
    → idle_tick (pos minutes) callback now w ≡ (returned false, w)
unfolding idle_tick
waits minutes now callback w h =
    let early : ((w.current_load == 0) && is_idle_since (pos minutes) w.last_activity now) ≡ false =
      not_due minutes now w h in
    if_false _ _ _ early

-- Within the timeout after a request started, was counted off or was touched, a round of the idle monitor
-- changes nothing and does not call the shutdown callback, whatever the load is.
pub idle_tick_active :
    (minutes now at : ℕ) (callback : M (Unit {0})) (w : World)
    → now < at + minutes * 60000
    → (idle_tick (pos minutes) callback now (increment_load at w)
        ≡ (returned false, increment_load at w))
      × (idle_tick (pos minutes) callback now (decrement_load at w)
          ≡ (returned false, decrement_load at w))
      × (idle_tick (pos minutes) callback now (touch_activity at w)
          ≡ (returned false, touch_activity at w))
unfolding increment_load decrement_load touch_activity
idle_tick_active minutes now at callback w h = (
  waits minutes now callback (increment_load at w) (λ z. h),
  waits minutes now callback (decrement_load at w) (λ z. h),
  waits minutes now callback (touch_activity at w) (λ z. h),
)

-- While a request is counted in the load, however long it takes, a round of the idle monitor changes
-- nothing and does not call the shutdown callback.
pub idle_tick_loaded :
    (minutes now : ℕ) (callback : M (Unit {0})) (w : World)
    → 0 < w.current_load
    → idle_tick (pos minutes) callback now w ≡ (returned false, w)
idle_tick_loaded minutes now callback w h = waits minutes now callback w (λ z. absurd (omega arith))
