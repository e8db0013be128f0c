-- ===== src/Server/Life/Calm.antt =====
-- Coroutines of the heartbeat where Redis answers and no shutdown was signaled.
use gemma_vllm_worker.Base.{
  ℕ, ◌≡◌, refl, ap, ◌∙◌, true, false, [], ◌∷◌, String, if◌then◌else◌, arith, inl, inr, Bool-cases,
  if_true, if_false,
}
use gemma_vllm_worker.Heartbeat.{get_heartbeat_keys, heartbeat_ttl_s}
use gemma_vllm_worker.Heartbeat.World.{
  Command, connect, heartbeat, hset, ok, World, returned, M, perform, handle_outcome,
}
use gemma_vllm_worker.Heartbeat.Service.{
  Context, get_redis, write_status, set_status, send_heartbeat, heartbeat_fields,
}
use gemma_vllm_worker.Heartbeat.Quiet.{count_of, count_of-append}
use gemma_vllm_worker.Heartbeat.Shutdown.Laws.{Answers, sent, perform_answered, then_step}
use gemma_vllm_worker.Heartbeat.Shutdown.Runs.{is_signal}

-- Not shut down, with no signal sent and no cancellation.
pub record IsCalm (w : World) : Type 0 where
  pub pending : w.cancel_pending ≡ false
  pub first : w.shutdown_signaled ≡ false
  pub silent : count_of is_signal w.trace ≡ 0

module _ (c : Context) where
  IsCalm-sent : (k : Command) (w : World) → is_signal k ≡ false → IsCalm w → IsCalm (sent c k w)
  IsCalm-sent k w quiet h = record {
    pending = h.pending;
    first = h.first;
    silent = omega (
      arith,
      count_of-append is_signal w.trace ((k, ok) ∷ []),
      h.silent,
      ap {B = ℕ} (λ b. if b then 1 else 0) quiet,
    );
  }

  -- A coroutine that returns calm, with an open connection.
  abbrev pub Settles : M (Unit {0}) → World → Type 0
  Settles m w = (v : World) × (m w ≡ (returned tt, v)) × (v.redis_open ≡ true) × IsCalm v

  pub get_redis-Settles : Answers c → (w : World) → IsCalm w → Settles (get_redis c) w
  unfolding get_redis
  get_redis-Settles all w h = elim (Bool-cases w.redis_open) [
    | inl opened ↦ (w, if_true _ _ _ opened, opened, h)
    | inr closed ↦
        let v : World = record (sent c connect w) { redis_open = true } in
        let k = IsCalm-sent connect w refl h in
        (
          v,
          if_false _ _ _ closed
              ∙ then_step c (perform c.redis connect)
                  (λ u. (returned tt, record u { redis_open = true })) w (sent c connect w)
                  (perform_answered c all connect w h.pending),
          refl,
          record { pending = k.pending; first = k.first; silent = k.silent },
        )
  ]

  perform-Settles :
      Answers c
      → (k : Command) (w : World) → is_signal k ≡ false
      → w.redis_open ≡ true
      → IsCalm w
      → Settles (perform c.redis k) w
  perform-Settles all k w quiet opened h =
      (sent c k w, perform_answered c all k w h.pending, opened, IsCalm-sent k w quiet h)

  pub set_status-Settles :
      Answers c → (status : String) (w : World) → IsCalm w → Settles (set_status c status) w
  unfolding set_status write_status
  set_status-Settles all status w h =
      let w1 : World = record w { current_status = status } in
      let calm : IsCalm w1 = record { pending = h.pending; first = h.first; silent = h.silent } in
      let (v, e, opened, k) = get_redis-Settles all w1 calm in
      let cmd = hset (get_heartbeat_keys c.config).hash_key "status" status in
      let (u, e', opened', k') = perform-Settles all cmd v refl opened k in
      (
        u,
        ap (λ t. (handle_outcome t.0, t.1))
            (then_step c (get_redis c) (perform c.redis cmd) w1 v e ∙ e'),
        opened',
        k',
      )

  pub send_heartbeat-Settles :
      Answers c → (now : ℕ) (w : World) → IsCalm w → Settles (send_heartbeat c now) w
  unfolding send_heartbeat
  send_heartbeat-Settles all now w h =
      let (v, e, opened, k) = get_redis-Settles all w h in
      let keys = get_heartbeat_keys c.config in
      let cmd =
        heartbeat keys.hash_key (heartbeat_fields c now v) heartbeat_ttl_s keys.set_key
          c.config.instance_id in
      let (u, e', opened', k') = perform-Settles all cmd v refl opened k in
      (u, then_step c (get_redis c) _ w v e ∙ ap (λ t. (handle_outcome t.0, t.1)) e', opened', k')
