-- ===== src/Heartbeat/Shutdown/Laws.antt =====
-- What the shutdown sequence sends.
use gemma_vllm_worker.Base.{
  ◌≡◌, ap, ◌∙◌, true, false, List, [], ◌∷◌, ◌++◌, String, if◌then◌else◌, ◌==◌, string_comparable,
  arith, inl, inr, if_true, if_false, Bool-cases,
}
use mathlib.Core.List.{append_assoc}
use gemma_vllm_worker.Heartbeat.{is_heartbeat_enabled, get_heartbeat_keys}
use gemma_vllm_worker.Heartbeat.World.{
  Command, delete, srem, close, World, Reply, ok, returned, M, ◌>>◌, perform, bind_outcome,
  handle_outcome,
}
use gemma_vllm_worker.Heartbeat.Service.{
  Context, get_redis, deregister, remove_registration, signal_termination, close_redis, termination,
}
use gemma_vllm_worker.Heartbeat.Shutdown.{
  is_running, stop_heartbeat, stop_idle_timeout, begin_shutdown, after_signal, first_shutdown,
  graceful_shutdown,
}

-- What `begin_shutdown` leaves alone, and what it sets.
pub begin_shutdown_lem :
    (w : World)
    → ((begin_shutdown w).trace ≡ w.trace)
      × ((begin_shutdown w).redis_open ≡ w.redis_open)
      × ((begin_shutdown w).cancel_pending ≡ w.cancel_pending)
      × ((begin_shutdown w).shutdown_signaled ≡ true)
      × (is_running (begin_shutdown w).heartbeat_task ≡ false)
      × (is_running (begin_shutdown w).idle_task ≡ false)
unfolding stop_heartbeat stop_idle_timeout
begin_shutdown_lem w =
    (ground arith, ground arith, ground arith, ground arith, ground arith, ground arith)

-- The commands of a full termination after its signal.
abbrev pub removal : Context → List (Command × Reply)
removal c =
    (delete (get_heartbeat_keys c.config).hash_key, ok)
    ∷ (srem (get_heartbeat_keys c.config).set_key c.config.instance_id, ok)
    ∷ (close, ok)
    ∷ []

module _ (c : Context) where
  -- Redis carries out every command.
  abbrev pub Answers : Type 0
  Answers = (t : List (Command × Reply)) (k : Command) → c.redis.answer t k ≡ ok

  pub perform_answered :
      Answers
      → (k : Command) (w : World) → w.cancel_pending ≡ false
      → perform c.redis k w ≡ (returned tt, record w { trace = w.trace ++ ((k, ok) ∷ []) })
  unfolding perform
  perform_answered all k w h = rw (all w.trace k) (ground arith)

  abbrev pub sent : Command → World → World
  sent k w = record w { trace = w.trace ++ ((k, ok) ∷ []) }

  pub then_step :
      {B : Type 0} (m : M (Unit {0})) (k : M B) (w w' : World)
      → m w ≡ (returned tt, w')
      → (m >> k) w ≡ k w'
  then_step m k w w' e = ap (λ r. bind_outcome r.0 r.1 (λ _. k)) e

  pub get_redis_open : (w : World) → w.redis_open ≡ true → get_redis c w ≡ (returned tt, w)
  unfolding get_redis
  get_redis_open w r = ground arith

  signal_answered :
      Answers
      → (reason : String) (w : World) → w.redis_open ≡ true
      → w.cancel_pending ≡ false
      → signal_termination c reason w ≡ (returned tt, sent (termination c reason) w)
  unfolding signal_termination
  signal_answered all reason w r p =
      then_step (get_redis c) (perform c.redis (termination c reason)) w w (get_redis_open w r)
      ∙ perform_answered all (termination c reason) w p

  remove_answered :
      Answers
      → (w : World) → w.redis_open ≡ true
      → w.cancel_pending ≡ false
      → let k = delete (get_heartbeat_keys c.config).hash_key in
        let l = srem (get_heartbeat_keys c.config).set_key c.config.instance_id in
        remove_registration c w ≡ (returned tt, sent l (sent k w))
  unfolding remove_registration
  remove_answered all w r p =
      let k = delete (get_heartbeat_keys c.config).hash_key in
      let l = srem (get_heartbeat_keys c.config).set_key c.config.instance_id in
      then_step (get_redis c) (λ v. (perform c.redis k >> perform c.redis l) v) w w
        (get_redis_open w r)
      ∙ then_step (perform c.redis k) (perform c.redis l) w (sent k w) (perform_answered all k w p)
      ∙ perform_answered all l (sent k w) p

  close_answered :
      Answers
      → (w : World) → w.redis_open ≡ true
      → w.cancel_pending ≡ false
      → close_redis c w ≡ (returned tt, record (sent close w) { redis_open = false })
  unfolding close_redis
  close_answered all w r p =
      let step =
        then_step (perform c.redis close) (λ v. (returned tt, record v { redis_open = false })) w
          (sent close w) (perform_answered all close w p) in
      if_true w.redis_open _ _ r ∙ step

  after_signal_pause :
      (reason : String) (w : World)
      → (reason == "idle-timeout") ≡ true
      → after_signal c reason w ≡ (returned tt, w)
  unfolding after_signal
  after_signal_pause reason w h = rw h

  after_signal_full :
      (reason : String) (w : World)
      → (reason == "idle-timeout") ≡ false
      → after_signal c reason w ≡ (deregister c >> close_redis c) w
  unfolding after_signal
  after_signal_full reason w h = rw h

  pub first_shutdown_answered :
      Answers
      → (reason : String) (w : World) → is_heartbeat_enabled c.config ≡ true
      → w.redis_open ≡ true
      → w.cancel_pending ≡ false
      → let (o, w') = first_shutdown c reason w in
        (o ≡ returned tt)
        × (w'.trace
            ≡ w.trace
              ++ ((termination c reason, ok)
                  ∷ (if reason == "idle-timeout" then [] else removal c)))
        × (w'.redis_open ≡ (reason == "idle-timeout"))
  unfolding first_shutdown
  first_shutdown_answered all reason w e r p =
      let signal = signal_answered all reason w r p in
      let v = sent (termination c reason) w in
      elim (Bool-cases (reason == "idle-timeout")) [
        | inl pause ↦
            let all_of : first_shutdown c reason w ≡ (returned tt, v) =
              if_true _ _ _ e
              ∙ then_step (signal_termination c reason) (after_signal c reason) w v signal
              ∙ after_signal_pause reason v pause in
            rw pause (
              ap (λ t. t.0) all_of,
              ap (λ t. t.1.trace) all_of,
              ap (λ t. t.1.redis_open) all_of ∙ r,
            )
        | inr full ↦
            let removed = ap (λ t. (handle_outcome t.0, t.1)) (remove_answered all v r p) in
            let u =
              sent (srem (get_heartbeat_keys c.config).set_key c.config.instance_id)
                (sent (delete (get_heartbeat_keys c.config).hash_key) v) in
            let all_of : first_shutdown c reason w
                ≡ (returned tt, record (sent close u) { redis_open = false }) =
              if_true _ _ _ e
              ∙ then_step (signal_termination c reason) (after_signal c reason) w v signal
              ∙ after_signal_full reason v full
              ∙ then_step (deregister c) (close_redis c) v u removed
              ∙ close_answered all u r p in
            rw full (
              ap (λ t. t.0) all_of,
              ap (λ t. t.1.trace) all_of ∙ (simp append_assoc),
              ap (λ t. t.1.redis_open) all_of,
            )
      ]

-- When Redis answers, a first shutdown of an instance with heartbeats and an open connection, outside a
-- cancelled task, returns with no exception. It sends the termination signal with its reason and nothing else if
-- the reason is "idle-timeout", keeping the connection; for any other reason it then deletes the hash,
-- leaves the active set, and closes the connection, in this order.
pub graceful_shutdown_answered :
    (c : Context) (reason : String) (w : World)
    → Answers c
    → w.shutdown_signaled ≡ false
    → is_heartbeat_enabled c.config ≡ true
    → w.redis_open ≡ true
    → w.cancel_pending ≡ false
    → let (o, w') = graceful_shutdown c reason w in
      (o ≡ returned tt)
      × (w'.trace
          ≡ w.trace
            ++ ((termination c reason, ok) ∷ (if reason == "idle-timeout" then [] else removal c)))
      × (w'.redis_open ≡ (reason == "idle-timeout"))
unfolding graceful_shutdown
graceful_shutdown_answered c reason w all first e r p =
    let (trace, open_kept, pending, flag, beat, idle) = begin_shutdown_lem w in
    let (a, b, d) =
      first_shutdown_answered c all reason (begin_shutdown w) e (open_kept ∙ r) (pending ∙ p) in
    let step =
      if_false w.shutdown_signaled (close_redis c w) (first_shutdown c reason (begin_shutdown w))
        first in
    let rest : List (Command × Reply) =
      (termination c reason, ok) ∷ (if reason == "idle-timeout" then [] else removal c) in
    (
      ap (λ t. t.0) step ∙ a,
      ap (λ t. t.1.trace) step ∙ b ∙ ap (λ t. t ++ rest) trace,
      ap (λ t. t.1.redis_open) step ∙ d,
    )
