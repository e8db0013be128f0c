-- ===== src/Heartbeat/Service.antt =====
-- src/heartbeat/heartbeat_service.py and the tasks of src/heartbeat/__init__.py. The JSON texts of
-- `json.dumps` are left as the dicts that they stand for where they are sent whole, and are a parameter
-- where they are a field of the hash.
use gemma_vllm_worker.Base.{ℕ, true, false, Option, some, [], ◌∷◌, String, ◌<>◌, if◌then◌else◌}
use gemma_vllm_worker.Base.Dict.{Dict}
use gemma_vllm_worker.Heartbeat.{
  Config, get_heartbeat_keys, get_pod_id, provider_routing, custom_metadata, is_heartbeat_enabled,
  heartbeat_ttl_s,
}
use gemma_vllm_worker.Heartbeat.World.{
  Command, connect, heartbeat, hset, delete, srem, publish, close, World, Redis, running,
  get_status, get_load, M, pure, ◌>>◌, modify, try_log, perform,
}

-- What the coroutines read and call: the constants of config.py, the host name, the start time and the
-- decimal text of numbers, and `json.dumps` of a dict of texts.
pub record Context : Type 0 where
  pub config : Config
  pub hostname : Option String
  pub start_time : ℕ
  pub text_of : ℕ → String
  pub dumps : Dict String → String
  pub redis : Redis

module _ (c : Context) where
  -- `_get_redis`: connects at the first use.
  unfoldable pub get_redis : M (Unit {0})
  unfolding perform
  get_redis w =
      if w.redis_open
      then pure tt w
      else (do perform c.redis connect; modify (λ v. record v { redis_open = true })) w

  -- The fields of the hash, at a time.
  unfoldable pub heartbeat_fields : ℕ → World → Dict String
  heartbeat_fields now w =
      ("instanceId", c.config.instance_id)
      ∷ ("serviceId", c.config.service_id)
      ∷ ("tenantId", c.config.tenant_id)
      ∷ ("providerRouting", c.dumps (provider_routing c.config c.hostname))
      ∷ ("customMetadata", c.dumps custom_metadata)
      ∷ ("load", c.text_of (get_load w))
      ∷ ("lastHeartbeat", c.text_of now)
      ∷ ("status", get_status w)
      ∷ ("region", c.config.region)
      ∷ ("startedAt", c.text_of c.start_time)
      ∷ []

  -- `send_heartbeat`, at a time.
  unfoldable pub send_heartbeat : ℕ → M (Unit {0})
  unfolding get_redis perform heartbeat_fields
  send_heartbeat now = do
    get_redis
    λ w.
        let keys = get_heartbeat_keys c.config in
        try_log
          (perform c.redis (
            heartbeat keys.hash_key (heartbeat_fields now w) heartbeat_ttl_s keys.set_key
              c.config.instance_id))
          w

  unfoldable pub write_status : String → M (Unit {0})
  unfolding get_redis perform
  write_status status = do
    get_redis
    perform c.redis (hset (get_heartbeat_keys c.config).hash_key "status" status)

  unfoldable pub set_status : String → M (Unit {0})
  unfolding write_status
  set_status status w = try_log (write_status status) (record w { current_status = status })

  -- `mark_healthy`
  unfoldable pub mark_healthy : M (Unit {0})
  unfolding set_status
  mark_healthy = set_status "healthy"

  -- `start_draining`
  unfoldable pub start_draining : M (Unit {0})
  unfolding set_status
  start_draining = set_status "draining"

  unfoldable pub remove_registration : M (Unit {0})
  unfolding get_redis perform
  remove_registration = do
    get_redis
    perform c.redis (delete (get_heartbeat_keys c.config).hash_key)
    perform c.redis (srem (get_heartbeat_keys c.config).set_key c.config.instance_id)

  -- `deregister`
  unfoldable pub deregister : M (Unit {0})
  unfolding remove_registration
  deregister = try_log remove_registration

  -- The message of a termination signal.
  unfoldable pub termination_message : String → Dict String
  termination_message reason =
      ("instanceId", c.config.instance_id)
      ∷ ("serviceId", c.config.service_id)
      ∷ ("tenantId", c.config.tenant_id)
      ∷ ("podId", get_pod_id c.config c.hostname)
      ∷ ("provider", c.config.provider)
      ∷ ("reason", reason)
      ∷ []

  abbrev pub termination : String → Command
  termination reason =
      publish ("instance:terminate:" <> c.config.service_id) (termination_message reason)

  -- `signal_termination`, which logs a failure and raises it again.
  unfoldable pub signal_termination : String → M (Unit {0})
  unfolding get_redis perform
  signal_termination reason = do get_redis; perform c.redis (termination reason)

  -- `close_redis`
  unfoldable pub close_redis : M (Unit {0})
  unfolding perform
  close_redis w =
      if w.redis_open
      then (do perform c.redis close; modify (λ v. record v { redis_open = false })) w
      else pure tt w

  -- `start_heartbeat`; the one heartbeat that it also starts is a task of its own.
  unfoldable pub start_heartbeat : World → World
  start_heartbeat w =
      if is_heartbeat_enabled c.config then record w { heartbeat_task = some running } else w
