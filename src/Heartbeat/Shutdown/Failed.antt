-- ===== src/Heartbeat/Shutdown/Failed.antt =====
-- A shutdown whose termination signal cannot be sent.
use gemma_vllm_worker.Base.{
  ◌+◌, ◌≡◌, refl, ap, ◌∙◌, true, false, List, [], ◌∷◌, ◌++◌, String, if_true, if_false, arith,
}
use gemma_vllm_worker.Heartbeat.{is_heartbeat_enabled}
use gemma_vllm_worker.Heartbeat.World.{World, Command, Reply, error, raised, bind_outcome, perform}
use gemma_vllm_worker.Heartbeat.Service.{
  Context, get_redis, signal_termination, close_redis, termination,
}
use gemma_vllm_worker.Heartbeat.Shutdown.{
  begin_shutdown, after_signal, first_shutdown, graceful_shutdown,
}
use gemma_vllm_worker.Heartbeat.Quiet.{count_of, count_of-append}
use gemma_vllm_worker.Heartbeat.Shutdown.Laws.{begin_shutdown_lem, then_step, get_redis_open}
use gemma_vllm_worker.Heartbeat.Shutdown.Runs.{is_removal, shutdowns, shutdowns-Same}

module _ (c : Context) (reason m : String) where
  -- Redis refuses the termination signal.
  abbrev pub Refuses : Type 0
  Refuses = (t : List (Command × Reply)) → c.redis.answer t (termination c reason) ≡ error m

  abbrev refused : World → World
  refused w = record w { trace = w.trace ++ ((termination c reason, error m) ∷ []) }

  perform-refused :
      Refuses
      → (w : World) → w.cancel_pending ≡ false
      → perform c.redis (termination c reason) w ≡ (raised m, refused w)
  unfolding perform
  perform-refused refuses w h = rw (refuses w.trace) (ground arith)

  first_shutdown-refused :
      Refuses
      → (w : World) → is_heartbeat_enabled c.config ≡ true
      → w.redis_open ≡ true
      → w.cancel_pending ≡ false
      → first_shutdown c reason w ≡ (raised m, refused w)
  unfolding first_shutdown signal_termination
  first_shutdown-refused refuses w e r p =
      let signal =
        then_step c (get_redis c) (perform c.redis (termination c reason)) w w
          (get_redis_open c w r)
        ∙ perform-refused refuses w p in
      if_true _ _ _ e ∙ ap (λ t. bind_outcome t.0 t.1 (λ _. after_signal c reason)) signal

-- If Redis refuses the termination signal, the first shutdown raises, for any reason, and neither it nor
-- any shutdown after it sends a command that deletes the hash or leaves the active set.
pub refused_keeps_registration :
    (c : Context) (reason m : String) (rs : List String) (w : World)
    → Refuses c reason m
    → w.shutdown_signaled ≡ false
    → is_heartbeat_enabled c.config ≡ true
    → w.redis_open ≡ true
    → w.cancel_pending ≡ false
    → ((graceful_shutdown c reason w).0 ≡ raised m)
      × (count_of is_removal (shutdowns c (reason ∷ rs) w).trace ≡ count_of is_removal w.trace)
unfolding graceful_shutdown shutdowns
refused_keeps_registration c reason m rs w refuses first e r p =
    let v = begin_shutdown w in
    let (trace, open_kept, pending, flag, beat, idle) = begin_shutdown_lem w in
    let step =
      if_false w.shutdown_signaled (close_redis c w) (first_shutdown c reason v) first
      ∙ first_shutdown-refused c reason m refuses v e (open_kept ∙ r) (pending ∙ p) in
    let later = shutdowns-Same c is_removal refl rs (refused c reason m v) flag in
    (
      ap (λ t. t.0) step,
      ap (λ t. count_of is_removal (shutdowns c rs t.1).trace) step
          ∙ later.counted
          ∙ count_of-append is_removal v.trace ((termination c reason, error m) ∷ [])
          ∙ ap (λ t. count_of is_removal t + 0) trace
          ∙ omega arith,
    )
