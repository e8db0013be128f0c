-- ===== src/Heartbeat/Tasks/Signals.antt =====
-- Termination signals in every interleaving of the tasks.
use gemma_vllm_worker.Base.{
  ℕ, ◌+◌, ◌≤◌, ◌≡◌, refl, sym, ap, ◌∙◌, subst, Bool, true, false, ◌&&◌, [], ◌∷◌, String,
  if◌then◌else◌, arith, ◌==◌, string_comparable, nat_comparable,
}
use gemma_vllm_worker.Base.Int.{ℤ}
use gemma_vllm_worker.Heartbeat.{heartbeat_ttl_s}
use gemma_vllm_worker.Heartbeat.World.{
  Command, connect, close, delete, srem, hset, heartbeat, World,
}
use gemma_vllm_worker.Heartbeat.Service.{Context, heartbeat_fields}
use gemma_vllm_worker.Heartbeat.Shutdown.{begin_shutdown, stop_idle_timeout}
use gemma_vllm_worker.Heartbeat.Idle.{increment_load, decrement_load, touch_activity, is_idle_since}
use gemma_vllm_worker.Heartbeat.Quiet.{count_of, count_of-append}
use gemma_vllm_worker.Heartbeat.Shutdown.Runs.{is_signal}
use gemma_vllm_worker.Heartbeat.Tasks.{
  Coroutine, return, change, logged, get_redis_steps, send_heartbeat_steps, set_status_steps,
  close_redis_steps, after_signal_steps, graceful_shutdown_steps, idle_tick_steps, Kind, beat,
  first_beat, healthy, draining, idle, shutdown, request_starts, request_touches, request_ends,
  in_loop, code_of, State, Reach,
}
use gemma_vllm_worker.Heartbeat.Tasks.Steady.{
  Sends, Changes, IsSteady, IsSteady-Follows, if-Follows, Follows-logged, get_redis_steps-IsSteady,
  close_redis_steps-IsSteady, send_heartbeat_steps-IsSteady, set_status_steps-IsSteady,
  after_signal_steps-IsSteady, graceful_shutdown_steps-Follows,
}
use gemma_vllm_worker.Heartbeat.Shutdown.Laws.{begin_shutdown_lem}
use gemma_vllm_worker.Heartbeat.Tasks.Protocol.{Protocol, IsSound, Follows, Budgeted, Reach-Inv}

abbrev count_true : Bool → ℕ
count_true b = if b then 1 else 0

-- The shutdown flag as a number.
abbrev pub times_flagged : World → ℕ
times_flagged w = count_true w.shutdown_signaled

-- Only a task that sets the flag may send a signal, and one only.
abbrev pub signals : Protocol
signals = record {
  Change = λ u v n m. (m + times_flagged u ≤ n + times_flagged v) × (v.trace ≡ u.trace);
  Send = λ loop w cmd n m. (if is_signal cmd then 1 else 0) + m ≤ n;
  Later = λ u v. Unit;
  Holds = λ w g n. n + count_of is_signal w.trace ≤ times_flagged w;
}

signals-IsSound : IsSound signals
signals-IsSound = record {
  change_refl = λ w n. (omega arith, refl);
  change_trans = λ u v w a b d (h, e) (k, e'). (omega arith, e' ∙ e);
  later_refl = λ w. tt;
  later_trans = λ u v w l l'. tt;
  change_later = λ u v n m h. tt;
  heard_later = λ cmd r w. tt;
  send_later = λ loop u v cmd n m h l. h;
  change_holds = λ u v g n m k (h, e) holds. omega (arith, ap (count_of is_signal) e);
  send_holds = λ loop w g g' cmd r n m k on h ans holds.
      omega (arith, count_of-append is_signal w.trace ((cmd, r) ∷ []));
  drop_holds = λ w g n k holds. omega arith;
}

begin_shutdown_eq :
    (w : World)
    → ((begin_shutdown w).shutdown_signaled ≡ true) × ((begin_shutdown w).trace ≡ w.trace)
begin_shutdown_eq w = let (trace, _, _, signaled, _, _) = begin_shutdown_lem w in (signaled, trace)

stop_idle_timeout_eq :
    (own : Bool) (w : World)
    → (0 + times_flagged w ≤ 0 + times_flagged (stop_idle_timeout own w))
      × ((stop_idle_timeout own w).trace ≡ w.trace)
unfolding stop_idle_timeout
stop_idle_timeout_eq own w = (ground arith, ground arith)

module _ (c : Context) (loop : Bool) (base : World) where
  quiet : (cmd : Command) → is_signal cmd ≡ false → Sends signals signals-IsSound loop base cmd
  quiet cmd h v n l = ground arith

  opens : (b : Bool) → Changes signals signals-IsSound loop base (λ v. record v { redis_open = b })
  opens b v n l = (omega arith, refl)

  closes : IsSteady signals signals-IsSound loop base (close_redis_steps c)
  closes =
      close_redis_steps-IsSteady signals signals-IsSound loop base c (quiet connect refl) opens
        (quiet close refl)

  gets : IsSteady signals signals-IsSound loop base (get_redis_steps c)
  gets = get_redis_steps-IsSteady signals signals-IsSound loop base c (quiet connect refl) opens

  after :
      (reason : String) → IsSteady signals signals-IsSound loop base (after_signal_steps c reason)
  after reason =
      after_signal_steps-IsSteady signals signals-IsSound loop base c (quiet connect refl) opens
        reason (λ k. quiet (delete k) refl) (λ k m. quiet (srem k m) refl) (quiet close refl)

  sets_status :
      (status : String) → IsSteady signals signals-IsSound loop base (set_status_steps c status)
  sets_status status =
      set_status_steps-IsSteady signals signals-IsSound loop base c (quiet connect refl) opens
        status (λ v n l. (omega arith, refl)) (λ k f v. quiet (hset k f v) refl)

  beats : (now : ℕ) → IsSteady signals signals-IsSound loop base (send_heartbeat_steps c now)
  beats now =
      send_heartbeat_steps-IsSteady signals signals-IsSound loop base c (quiet connect refl) opens
        now (λ k w s m. quiet (heartbeat k (heartbeat_fields c now w) heartbeat_ttl_s s m) refl)

module _ (c : Context) (loop : Bool) where
  steady :
      (p : Coroutine) (w : World)
      → IsSteady signals signals-IsSound loop w p
      → Follows signals loop w 0 p
  steady p w h = IsSteady-Follows signals signals-IsSound loop w p w 0 tt h

  shutdown-Follows :
      (reason : String) (w : World) → Follows signals loop w 0 (graceful_shutdown_steps c reason)
  shutdown-Follows reason w =
      graceful_shutdown_steps-Follows signals signals-IsSound loop c reason w 0 1 0
        (closes c loop w)
        (λ first.
          let (signaled, trace) = begin_shutdown_eq w in
          (omega (arith, ap count_true first, ap count_true signaled), trace))
        (λ v l. omega arith) (gets c loop (begin_shutdown w))
        (after c loop (begin_shutdown w) reason)

  idle-Follows :
      (minutes : ℤ) (now : ℕ) (w : World) → Follows signals loop w 0 (idle_tick_steps c minutes now)
  unfolding idle_tick_steps
  idle-Follows minutes now w =
      let stopped = stop_idle_timeout true w in
      if-Follows signals signals-IsSound loop
        ((w.current_load == 0) && is_idle_since minutes w.last_activity now)
        (change (stop_idle_timeout true) (logged (graceful_shutdown_steps c "idle-timeout"))) return
        w 0
        (λ due. (
          0,
          stop_idle_timeout_eq true w,
          Follows-logged signals signals-IsSound loop (graceful_shutdown_steps c "idle-timeout")
              stopped 0 (shutdown-Follows "idle-timeout" stopped),
        ))
        (λ early. tt)

  code_of-Follows : (kind : Kind) (w : World) → Follows signals loop w 0 (code_of c kind)
  unfolding code_of increment_load decrement_load touch_activity
  code_of-Follows (beat now) w = steady (send_heartbeat_steps c now) w (beats c loop w now)
  code_of-Follows (first_beat now) w = steady (send_heartbeat_steps c now) w (beats c loop w now)
  code_of-Follows healthy w =
      steady (set_status_steps c "healthy") w (sets_status c loop w "healthy")
  code_of-Follows draining w =
      steady (set_status_steps c "draining") w (sets_status c loop w "draining")
  code_of-Follows (idle minutes now) w = idle-Follows minutes now w
  code_of-Follows (shutdown reason) w = shutdown-Follows reason w
  code_of-Follows (request_starts now) w = (0, (omega arith, refl), tt)
  code_of-Follows (request_touches now) w = (0, (omega arith, refl), tt)
  code_of-Follows (request_ends now) w = (0, (omega arith, refl), tt)

-- Whatever tasks start, in every interleaving of them at their awaits, with tasks cancelled at any of these and
-- any answers of Redis: from a worker that sent no termination signal, and where nothing is in flight, at most
-- one is ever sent, and none before a shutdown is signaled.
pub one_signal :
    (c : Context) (may_start : Kind → Bool) (may_linger : World → Command → Bool) (s s' : State)
    → s.tasks ≡ []
    → count_of is_signal s.world.trace ≡ 0
    → Reach c may_start may_linger s s'
    → (count_of is_signal s'.world.trace ≤ 1)
      × (s'.world.shutdown_signaled ≡ false → count_of is_signal s'.world.trace ≡ 0)
one_signal c may_start may_linger s s' none_yet silent r =
    let (n, _, holds) =
      Reach-Inv signals signals-IsSound c may_start may_linger (λ w g cmd n may holds. holds)
        (λ kind w may on. code_of-Follows c (in_loop kind) kind w) s s' r
        (
          0,
          subst (λ ts. Budgeted signals s.world ts 0) (sym none_yet) refl,
          omega (arith, silent),
        ) in
    (ground (arith, holds), (λ first. ground (arith, holds)))
