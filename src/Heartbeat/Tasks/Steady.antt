-- ===== src/Heartbeat/Tasks/Steady.antt =====
-- Coroutines that keep to a protocol with any budget, and leave it as it is.
use gemma_vllm_worker.Base.{
  ℕ, ◌≡◌, refl, Bool, true, false, not, String, if◌then◌else◌, ◌==◌, string_comparable,
}
use gemma_vllm_worker.Heartbeat.{get_heartbeat_keys, heartbeat_ttl_s, is_heartbeat_enabled}
use gemma_vllm_worker.Heartbeat.World.{
  Command, connect, heartbeat, hset, delete, srem, close, Reply, ok, error, World,
}
use gemma_vllm_worker.Heartbeat.Service.{Context, heartbeat_fields, termination}
use gemma_vllm_worker.Heartbeat.Shutdown.{begin_shutdown}
use gemma_vllm_worker.Heartbeat.Tasks.{
  Coroutine, return, raise, look, change, await, and_then, logged, after_reply, send,
  get_redis_steps, send_heartbeat_steps, set_status_steps, deregister_steps, close_redis_steps,
  after_signal_steps, signal_termination_steps, first_shutdown_steps, graceful_shutdown_steps,
}
use gemma_vllm_worker.Heartbeat.Tasks.Protocol.{Protocol, IsSound, Follows}

module _ (P : Protocol) (sound : IsSound P) (loop : Bool) where
  pub Follows-and_then :
      (p q : Coroutine) (w : World) (n : ℕ)
      → Follows P loop w n p
      → ((u : World) (m : ℕ) → P.Later w u → Follows P loop u m q)
      → Follows P loop w n (and_then p q)
  Follows-and_then return q w n h k = k w n (sound.later_refl w)
  Follows-and_then (raise m) q w n h k = tt
  Follows-and_then (look f) q w n h k = Follows-and_then (f w) q w n h k
  Follows-and_then (change f p) q w n (m, c, h) k = (
    m,
    c,
    Follows-and_then p q (f w) m h
        (λ u b l. k u b (sound.later_trans w (f w) u (sound.change_later w (f w) n m c) l)),
  )
  Follows-and_then (await cmd f) q w n (m, s, h) k = (
    m,
    s,
    (λ r v l.
        Follows-and_then (f r) q v m (h r v l) (λ u b l'. k u b (sound.later_trans w v u l l'))),
  )

  pub Follows-logged :
      (p : Coroutine) (w : World) (n : ℕ) → Follows P loop w n p → Follows P loop w n (logged p)
  Follows-logged return w n h = tt
  Follows-logged (raise m) w n h = tt
  Follows-logged (look f) w n h = Follows-logged (f w) w n h
  Follows-logged (change f p) w n (m, c, h) = (m, c, Follows-logged p (f w) m h)
  Follows-logged (await cmd f) w n (m, s, h) = (m, s, (λ r v l. Follows-logged (f r) v m (h r v l)))

  -- From a world on.
  module _ (base : World) where
    abbrev pub Sends : Command → Type 0
    Sends cmd = (v : World) (n : ℕ) → P.Later base v → P.Send loop v cmd n n

    abbrev pub Changes : (World → World) → Type 0
    Changes f = (v : World) (n : ℕ) → P.Later base v → P.Change v (f v) n n

    abbrev pub IsSteady : Coroutine → Type 0
    IsSteady return = Unit
    IsSteady (raise m) = Unit
    IsSteady (look f) = (v : World) → P.Later base v → IsSteady (f v)
    IsSteady (change f p) = Changes f × IsSteady p
    IsSteady (await cmd f) = Sends cmd × ((r : Reply) → IsSteady (f r))

    pub IsSteady-and_then : (p q : Coroutine) → IsSteady p → IsSteady q → IsSteady (and_then p q)
    IsSteady-and_then return q h k = k
    IsSteady-and_then (raise m) q h k = tt
    IsSteady-and_then (look f) q h k = λ v l. IsSteady-and_then (f v) q (h v l) k
    IsSteady-and_then (change f p) q (c, h) k = (c, IsSteady-and_then p q h k)
    IsSteady-and_then (await cmd f) q (s, h) k = (s, (λ r. IsSteady-and_then (f r) q (h r) k))

    pub IsSteady-logged : (p : Coroutine) → IsSteady p → IsSteady (logged p)
    IsSteady-logged return h = tt
    IsSteady-logged (raise m) h = tt
    IsSteady-logged (look f) h = λ v l. IsSteady-logged (f v) (h v l)
    IsSteady-logged (change f p) (c, h) = (c, IsSteady-logged p h)
    IsSteady-logged (await cmd f) (s, h) = (s, (λ r. IsSteady-logged (f r) (h r)))

    pub Follows-steady_then :
        (p q : Coroutine) (v : World) (n : ℕ)
        → P.Later base v
        → IsSteady p
        → ((u : World) → P.Later base u → Follows P loop u n q)
        → Follows P loop v n (and_then p q)
    Follows-steady_then return q v n l h k = k v l
    Follows-steady_then (raise m) q v n l h k = tt
    Follows-steady_then (look f) q v n l h k = Follows-steady_then (f v) q v n l (h v l) k
    Follows-steady_then (change f p) q v n l (c, h) k =
        let s = c v n l in
        let l' = sound.later_trans base v (f v) l (sound.change_later v (f v) n n s) in
        (n, s, Follows-steady_then p q (f v) n l' h k)
    Follows-steady_then (await cmd f) q v n l (s, h) k = (
      n,
      s v n l,
      (λ r u l'. Follows-steady_then (f r) q u n (sound.later_trans base v u l l') (h r) k),
    )

    pub IsSteady-Follows :
        (p : Coroutine) (v : World) (n : ℕ) → P.Later base v → IsSteady p → Follows P loop v n p
    IsSteady-Follows return v n l h = tt
    IsSteady-Follows (raise m) v n l h = tt
    IsSteady-Follows (look f) v n l h = IsSteady-Follows (f v) v n l (h v l)
    IsSteady-Follows (change f p) v n l (c, h) =
        let s = c v n l in
        let l' = sound.later_trans base v (f v) l (sound.change_later v (f v) n n s) in
        (n, s, IsSteady-Follows p (f v) n l' h)
    IsSteady-Follows (await cmd f) v n l (s, h) =
        (n, s v n l, (λ r u l'. IsSteady-Follows (f r) u n (sound.later_trans base v u l l') (h r)))

    pub send-IsSteady : (cmd : Command) → Sends cmd → IsSteady (send cmd)
    send-IsSteady cmd s = (s, one)
      where
        one : (r : Reply) → IsSteady (after_reply r)
        one ok = tt
        one (error m) = tt

    if-IsSteady :
        (b : Bool) (p q : Coroutine) → IsSteady p → IsSteady q → IsSteady (if b then p else q)
    if-IsSteady true p q h k = h
    if-IsSteady false p q h k = k

    module _ (c : Context) (connects : Sends connect)
        (opens : (open_now : Bool) → Changes (λ v. record v { redis_open = open_now })) where
      pub get_redis_steps-IsSteady : IsSteady (get_redis_steps c)
      unfolding get_redis_steps
      get_redis_steps-IsSteady v l =
          if-IsSteady v.redis_open return _ tt
            (IsSteady-and_then (send connect) _ (send-IsSteady connect connects) (opens true, tt))

      pub close_redis_steps-IsSteady : Sends close → IsSteady (close_redis_steps c)
      unfolding close_redis_steps
      close_redis_steps-IsSteady closes v l =
          if-IsSteady v.redis_open _ return
            (IsSteady-and_then (send close) _ (send-IsSteady close closes) (opens false, tt)) tt

      pub send_heartbeat_steps-IsSteady :
          (now : ℕ)
          → ((k : String) (w : World) (s m : String)
              → Sends (heartbeat k (heartbeat_fields c now w) heartbeat_ttl_s s m))
          → IsSteady (send_heartbeat_steps c now)
      unfolding send_heartbeat_steps
      send_heartbeat_steps-IsSteady now beats =
          IsSteady-and_then (get_redis_steps c) _ get_redis_steps-IsSteady
            (λ v l. IsSteady-logged (send _) (send-IsSteady _ (beats _ v _ _)))

      pub set_status_steps-IsSteady :
          (status : String)
          → Changes (λ w. record w { current_status = status })
          → ((k f v : String) → Sends (hset k f v))
          → IsSteady (set_status_steps c status)
      unfolding set_status_steps
      set_status_steps-IsSteady status sets writes = (
        sets,
        IsSteady-logged (and_then (get_redis_steps c) _) (
            IsSteady-and_then (get_redis_steps c) _ get_redis_steps-IsSteady
              (send-IsSteady _ (writes _ _ _))),
      )

      -- What follows a signal.
      pub after_signal_steps-IsSteady :
          (reason : String)
          → ((k : String) → Sends (delete k))
          → ((k m : String) → Sends (srem k m))
          → Sends close
          → IsSteady (after_signal_steps c reason)
      unfolding after_signal_steps deregister_steps
      after_signal_steps-IsSteady reason deletes removes closes =
          let keys = get_heartbeat_keys c.config in
          if-IsSteady (not (reason == "idle-timeout")) _ return
            (IsSteady-and_then (deregister_steps c) (close_redis_steps c)
              (IsSteady-logged (and_then (get_redis_steps c) _) (
                IsSteady-and_then (get_redis_steps c) _ get_redis_steps-IsSteady (
                  IsSteady-and_then (send (delete keys.hash_key)) _
                    (send-IsSteady (delete keys.hash_key) (deletes keys.hash_key))
                    (send-IsSteady (srem keys.set_key c.config.instance_id)
                      (removes keys.set_key c.config.instance_id)))))
              (close_redis_steps-IsSteady closes))
            tt

  pub if-Follows :
      (b : Bool) (p q : Coroutine) (w : World) (n : ℕ)
      → (b ≡ true → Follows P loop w n p)
      → (b ≡ false → Follows P loop w n q)
      → Follows P loop w n (if b then p else q)
  if-Follows true p q w n h k = h refl
  if-Follows false p q w n h k = k refl

  -- A shutdown: the change that starts it gives the budget for its signal.
  pub graceful_shutdown_steps-Follows :
      (c : Context) (reason : String) (w : World) (n m k : ℕ)
      → IsSteady w (close_redis_steps c)
      → (w.shutdown_signaled ≡ false → P.Change w (begin_shutdown w) n m)
      → ((v : World) → P.Later (begin_shutdown w) v → P.Send loop v (termination c reason) m k)
      → IsSteady (begin_shutdown w) (get_redis_steps c)
      → IsSteady (begin_shutdown w) (after_signal_steps c reason)
      → Follows P loop w n (graceful_shutdown_steps c reason)
  unfolding graceful_shutdown_steps first_shutdown_steps signal_termination_steps
  graceful_shutdown_steps-Follows c reason w n m k closes starts sends gets after =
      if-Follows w.shutdown_signaled _ _ w n
        (λ again. IsSteady-Follows w (close_redis_steps c) w n (sound.later_refl w) closes)
        (λ first. (
          m,
          starts first,
          if-Follows (is_heartbeat_enabled c.config) _ return begun m
              (λ on.
                Follows-and_then (and_then (get_redis_steps c) (send (termination c reason)))
                  (after_signal_steps c reason) begun m signals
                  (λ u b later.
                    IsSteady-Follows begun (after_signal_steps c reason) u b later after))
              (λ off. tt),
        ))
    where
      begun : World
      begun = begin_shutdown w

      answers : (r : Reply) (v : World) → Follows P loop v k (after_reply r)
      answers ok v = tt
      answers (error x) v = tt

      signals : Follows P loop begun m (and_then (get_redis_steps c) (send (termination c reason)))
      signals =
          Follows-steady_then begun (get_redis_steps c) _ begun m (sound.later_refl begun) gets
            (λ v l. (k, sends v l, (λ r u l'. answers r u)))
