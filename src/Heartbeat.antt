-- ===== src/Heartbeat.antt =====
-- src/heartbeat/config.py: the identity of the instance and the keys of its registration, read from the
-- environment. The host name, `socket.gethostname`, is a parameter, absent where the call raises.
pub mod World
pub mod Service
pub mod Shutdown
pub mod Quiet
pub mod Idle
pub mod Tasks
use gemma_vllm_worker.Base.{
  ℕ, ◌*◌, Bool, true, false, not, ◌&&◌, Option, none, some, List, [], ◌∷◌, String, ◌<>◌, get_or,
  ◌==◌, string_comparable, if◌then◌else◌,
}
use gemma_vllm_worker.Base.Int.{ℤ, pos, negsuc}
use gemma_vllm_worker.Base.Number.{parse_int}
use gemma_vllm_worker.Base.Dict.{Dict, lookup}

abbrev pub heartbeat_interval_s : ℕ
heartbeat_interval_s = 10

abbrev pub heartbeat_ttl_s : ℕ
heartbeat_ttl_s = 30

abbrev pub idle_check_interval_s : ℕ
idle_check_interval_s = 60

pub record Config : Type 0 where
  pub tenant_id : String
  pub service_id : String
  pub instance_id : String
  pub provider : String
  pub redis_url : String
  pub runpod_pod_id : String
  pub region : String
  pub idle_timeout_minutes : ℤ

-- `os.environ.get(key, default)`
abbrev pub env_or : Dict String → String → String → String
env_or env key default = get_or (lookup key env) default

-- The module's constants; no value where `int` raises on `IDLE_TIMEOUT_MINUTES`.
unfoldable pub read_config : Dict String → Option Config
unfolding lookup parse_int
read_config env = elim (parse_int (env_or env "IDLE_TIMEOUT_MINUTES" "20")) [
  | none ↦ none
  | some minutes ↦ some (record {
    tenant_id = env_or env "NEXUS_TENANT_ID" "";
    service_id = env_or env "NEXUS_SERVICE_ID" "";
    instance_id = env_or env "NEXUS_INSTANCE_ID" "";
    provider = env_or env "NEXUS_PROVIDER" "runpod";
    redis_url = env_or env "NEXUS_REDIS_URL" "";
    runpod_pod_id = env_or env "RUNPOD_POD_ID" "";
    region = env_or env "RUNPOD_DC_ID" (env_or env "FLY_REGION" "unknown");
    idle_timeout_minutes = minutes;
  })
]

-- `get_pod_id`
unfoldable pub get_pod_id : Config → Option String → String
get_pod_id c hostname = if c.runpod_pod_id == "" then get_or hostname "" else c.runpod_pod_id

pub record Keys : Type 0 where
  pub hash_key : String
  pub set_key : String

-- `get_heartbeat_keys`
unfoldable pub get_heartbeat_keys : Config → Keys
get_heartbeat_keys c = record {
  hash_key = "machines:" <> (c.service_id <> (":" <> c.instance_id));
  set_key = "machines:" <> (c.service_id <> ":active");
}

-- The dict of which `get_provider_routing` returns the JSON text.
unfoldable pub provider_routing : Config → Option String → Dict String
unfolding get_pod_id
provider_routing c hostname = ("provider", c.provider) ∷ ("podId", get_pod_id c hostname) ∷ []

abbrev pub is_set : String → Bool
is_set s = not (s == "")

-- `is_heartbeat_enabled`
unfoldable pub is_heartbeat_enabled : Config → Bool
is_heartbeat_enabled c =
    is_set c.tenant_id && is_set c.service_id && is_set c.instance_id && is_set c.redis_url

-- The dict of `get_custom_metadata`.
abbrev pub custom_metadata : Dict String
custom_metadata = []
