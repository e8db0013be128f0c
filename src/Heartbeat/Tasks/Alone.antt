-- ===== src/Heartbeat/Tasks/Alone.antt =====
-- The coroutines await by await, run without others, are those of Heartbeat/Service and Heartbeat/Shutdown.
use gemma_vllm_worker.Base.{
  ℕ, ◌≡◌, refl, ap, ◌∙◌, Bool, true, false, not, ◌&&◌, [], ◌∷◌, ◌++◌, String, if◌then◌else◌, inl,
  inr, Bool-cases, ◌==◌, string_comparable, nat_comparable,
}
use mathlib.Core.Path.{ap₂, fun_ext}
use gemma_vllm_worker.Base.Int.{ℤ}
use gemma_vllm_worker.Heartbeat.{is_heartbeat_enabled, get_heartbeat_keys}
use gemma_vllm_worker.Heartbeat.World.{
  Command, connect, delete, srem, close, Reply, ok, error, World, Redis, Outcome, returned, raised,
  cancelled, M, pure, ◌>>=◌, ◌>>◌, modify, bind_outcome, try_log, of_reply, perform,
}
use gemma_vllm_worker.Heartbeat.Service.{
  Context, get_redis, send_heartbeat, set_status, write_status, remove_registration, deregister,
  signal_termination, termination, close_redis,
}
use gemma_vllm_worker.Heartbeat.Shutdown.{
  begin_shutdown, stop_idle_timeout, after_signal, first_shutdown, graceful_shutdown,
}
use gemma_vllm_worker.Heartbeat.Idle.{is_idle_since, idle_tick}
use gemma_vllm_worker.Heartbeat.Tasks.{
  Coroutine, return, raise, look, change, await, and_then, logged, after_reply, send,
  get_redis_steps, send_heartbeat_steps, set_status_steps, deregister_steps,
  signal_termination_steps, close_redis_steps, after_signal_steps, first_shutdown_steps,
  graceful_shutdown_steps, idle_tick_steps,
}

-- A coroutine to its end, with no other task between its awaits.
abbrev pub run_alone : Redis → Coroutine → M (Unit {0})
run_alone r return w = (returned tt, w)
run_alone r (raise m) w = (raised m, w)
run_alone r (look f) w = run_alone r (f w) w
run_alone r (change f p) w = run_alone r p (f w)
run_alone r (await cmd f) w =
    let reply = r.answer w.trace cmd in
    let rest = run_alone r (f reply) (record w { trace = w.trace ++ ((cmd, reply) ∷ []) }) in
    if w.cancel_pending && r.suspends cmd
    then (cancelled, record w { cancel_pending = false })
    else rest

module _ (r : Redis) where
  run_alone-and_then :
      (p q : Coroutine) (w : World)
      → run_alone r (and_then p q) w ≡ (run_alone r p >> run_alone r q) w
  run_alone-and_then return q w = refl
  run_alone-and_then (raise m) q w = refl
  run_alone-and_then (look f) q w = run_alone-and_then (f w) q w
  run_alone-and_then (change f p) q w = run_alone-and_then p q (f w)
  run_alone-and_then (await cmd f) q w = elim (Bool-cases (w.cancel_pending && r.suspends cmd)) [
    | inl stop ↦ rw stop refl
    | inr go ↦ rw go (run_alone-and_then (f (r.answer w.trace cmd)) q _)
  ]

  run_alone-logged :
      (p : Coroutine) (w : World) → run_alone r (logged p) w ≡ try_log (run_alone r p) w
  run_alone-logged return w = refl
  run_alone-logged (raise m) w = refl
  run_alone-logged (look f) w = run_alone-logged (f w) w
  run_alone-logged (change f p) w = run_alone-logged p (f w)
  run_alone-logged (await cmd f) w = elim (Bool-cases (w.cancel_pending && r.suspends cmd)) [
    | inl stop ↦ rw stop refl
    | inr go ↦ rw go (run_alone-logged (f (r.answer w.trace cmd)) _)
  ]

  after_reply_lem : (x : Reply) (w : World) → run_alone r (after_reply x) w ≡ (of_reply x, w)
  after_reply_lem ok w = refl
  after_reply_lem (error m) w = refl

  run_alone-send : (cmd : Command) (w : World) → run_alone r (send cmd) w ≡ perform r cmd w
  unfolding perform
  run_alone-send cmd w =
      let reply = r.answer w.trace cmd in
      ap
        (λ x.
          if w.cancel_pending && r.suspends cmd
          then (cancelled, record w { cancel_pending = false })
          else x)
        (after_reply_lem reply (record w { trace = w.trace ++ ((cmd, reply) ∷ []) }))

  run_alone-if :
      (b : Bool) (p q : Coroutine) (w : World)
      → run_alone r (if b then p else q) w ≡ (if b then run_alone r p w else run_alone r q w)
  run_alone-if true p q w = refl
  run_alone-if false p q w = refl

  in_sequence :
      (p q : Coroutine) (m k : M (Unit {0}))
      → run_alone r p ≡ m
      → run_alone r q ≡ k
      → run_alone r (and_then p q) ≡ (m >> k)
  in_sequence p q m k h e = fun_ext (run_alone-and_then p q) ∙ ap₂ (λ x y. x >> y) h e

  in_log :
      (p : Coroutine) (m : M (Unit {0})) → run_alone r p ≡ m → run_alone r (logged p) ≡ try_log m
  in_log p m h = fun_ext (run_alone-logged p) ∙ ap try_log h

  sends : (cmd : Command) → run_alone r (send cmd) ≡ perform r cmd
  sends cmd = fun_ext (run_alone-send cmd)

  in_branches :
      (b : Bool) (p q : Coroutine) (w : World) (x y : Outcome (Unit {0}) × World)
      → run_alone r p w ≡ x
      → run_alone r q w ≡ y
      → run_alone r (if b then p else q) w ≡ (if b then x else y)
  in_branches true p q w x y h k = h
  in_branches false p q w x y h k = k

-- A result that is not used.
abbrev ignored : Outcome Bool × World → Outcome (Unit {0}) × World
ignored x = bind_outcome x.0 x.1 (λ ended. pure tt)

ignored_lem : (x : Outcome (Unit {0}) × World) → x ≡ ignored (bind_outcome x.0 x.1 (λ u. pure true))
ignored_lem (returned u, v) = refl
ignored_lem (raised m, v) = refl
ignored_lem (cancelled, v) = refl

ignored_branches :
    (b : Bool) (x y : Outcome Bool × World)
    → (if b then ignored x else ignored y) ≡ ignored (if b then x else y)
ignored_branches true x y = refl
ignored_branches false x y = refl

module _ (c : Context) where
  abbrev alone : Coroutine → M (Unit {0})
  alone p = run_alone c.redis p

  run_alone-get_redis : alone (get_redis_steps c) ≡ get_redis c
  unfolding get_redis_steps get_redis
  run_alone-get_redis =
      let opens : World → World = λ v. record v { redis_open = true } in
      fun_ext λ w.
        in_branches c.redis w.redis_open return (and_then (send connect) (change opens return)) w _
          _ refl
          (ap (λ m. m w)
            (in_sequence c.redis (send connect) (change opens return) _ (modify opens)
              (sends c.redis connect) refl))

  run_alone-close_redis : alone (close_redis_steps c) ≡ close_redis c
  unfolding close_redis_steps close_redis
  run_alone-close_redis =
      let closes : World → World = λ v. record v { redis_open = false } in
      fun_ext λ w.
        in_branches c.redis w.redis_open (and_then (send close) (change closes return)) return w _ _
          (ap (λ m. m w)
            (in_sequence c.redis (send close) (change closes return) _ (modify closes)
              (sends c.redis close) refl))
          refl

  run_alone-signal_termination :
      (reason : String) → alone (signal_termination_steps c reason) ≡ signal_termination c reason
  unfolding signal_termination_steps signal_termination
  run_alone-signal_termination reason =
      in_sequence c.redis (get_redis_steps c) (send (termination c reason)) (get_redis c) _
        run_alone-get_redis (sends c.redis (termination c reason))

  run_alone-send_heartbeat : (now : ℕ) → alone (send_heartbeat_steps c now) ≡ send_heartbeat c now
  unfolding send_heartbeat_steps send_heartbeat
  run_alone-send_heartbeat now =
      in_sequence c.redis (get_redis_steps c) _ (get_redis c) _ run_alone-get_redis
        (fun_ext λ w. ap (λ m. m w) (in_log c.redis (send _) _ (sends c.redis _)))

  run_alone-set_status : (status : String) → alone (set_status_steps c status) ≡ set_status c status
  unfolding set_status_steps set_status write_status
  run_alone-set_status status = fun_ext λ w.
      ap (λ m. m (record w { current_status = status }))
        (in_log c.redis (and_then (get_redis_steps c) (send _)) _ (
          in_sequence c.redis (get_redis_steps c) (send _) (get_redis c) _ run_alone-get_redis
            (sends c.redis _)))

  run_alone-deregister : alone (deregister_steps c) ≡ deregister c
  unfolding deregister_steps deregister remove_registration
  run_alone-deregister =
      let keys = get_heartbeat_keys c.config in
      let deletes = delete keys.hash_key in
      let removes = srem keys.set_key c.config.instance_id in
      in_log c.redis (and_then (get_redis_steps c) (and_then (send deletes) (send removes))) _ (
        in_sequence c.redis (get_redis_steps c) (and_then (send deletes) (send removes))
          (get_redis c) _ run_alone-get_redis
          (in_sequence c.redis (send deletes) (send removes) _ _ (sends c.redis deletes)
            (sends c.redis removes)))

  run_alone-after_signal :
      (reason : String) → alone (after_signal_steps c reason) ≡ after_signal c reason
  unfolding after_signal_steps after_signal
  run_alone-after_signal reason = fun_ext λ w.
      in_branches c.redis (not (reason == "idle-timeout"))
        (and_then (deregister_steps c) (close_redis_steps c)) return w _ _
        (ap (λ m. m w)
          (in_sequence c.redis (deregister_steps c) (close_redis_steps c) (deregister c)
            (close_redis c) run_alone-deregister run_alone-close_redis))
        refl

  run_alone-first_shutdown :
      (reason : String) → alone (first_shutdown_steps c reason) ≡ first_shutdown c reason
  unfolding first_shutdown_steps first_shutdown
  run_alone-first_shutdown reason = fun_ext λ w.
      in_branches c.redis (is_heartbeat_enabled c.config)
        (and_then (signal_termination_steps c reason) (after_signal_steps c reason)) return w _ _
        (ap (λ m. m w)
          (in_sequence c.redis (signal_termination_steps c reason) (after_signal_steps c reason)
            (signal_termination c reason) (after_signal c reason)
            (run_alone-signal_termination reason) (run_alone-after_signal reason)))
        refl

  run_alone-graceful_shutdown :
      (reason : String) → alone (graceful_shutdown_steps c reason) ≡ graceful_shutdown c reason
  unfolding graceful_shutdown_steps graceful_shutdown
  run_alone-graceful_shutdown reason = fun_ext λ w.
      in_branches c.redis w.shutdown_signaled (close_redis_steps c)
        (change begin_shutdown (first_shutdown_steps c reason)) w _ _
        (ap (λ m. m w) run_alone-close_redis)
        (ap (λ m. m (begin_shutdown w)) (run_alone-first_shutdown reason))

  run_alone-idle_tick :
      (minutes : ℤ) (now : ℕ) (w : World)
      → alone (idle_tick_steps c minutes now) w
        ≡ (idle_tick minutes (graceful_shutdown c "idle-timeout") now >>= λ ended. pure tt) w
  unfolding idle_tick_steps idle_tick
  run_alone-idle_tick minutes now w =
      let callback = graceful_shutdown_steps c "idle-timeout" in
      let stopped = stop_idle_timeout true w in
      let ended = try_log (graceful_shutdown c "idle-timeout") stopped in
      let is_due = (w.current_load == 0) && is_idle_since minutes w.last_activity now in
      in_branches c.redis is_due (change (stop_idle_timeout true) (logged callback)) return w
        (ignored (bind_outcome ended.0 ended.1 (λ u. pure true))) (returned tt, w)
        (ap (λ m. m stopped)
            (in_log c.redis callback _ (run_alone-graceful_shutdown "idle-timeout"))
          ∙ ignored_lem ended)
        refl
      ∙ ignored_branches is_due (bind_outcome ended.0 ended.1 (λ u. pure true)) (returned false, w)
