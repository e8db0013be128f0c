-- ===== src/Auth.antt =====
-- src/middleware/cp_hmac_auth.py: the HMAC check of requests that the control plane forwards. The hash,
-- HMAC-SHA256 in hex, is a parameter; so are the clock and the two environment variables.
pub mod Window
pub mod Message
use gemma_vllm_worker.Base.{
  ℕ, ◌≤◌, ◌≡◌, ◌≢◌, Bool, true, false, not, ◌&&◌, ◌||◌, Option, none, some, List, [], ◌∷◌, String,
  ◌<>◌, if◌then◌else◌, ltb, elem, ◌==◌, string_comparable,
}
use gemma_vllm_worker.Base.Int.{ℤ, pos, distance}
use gemma_vllm_worker.Base.Number.{parse_int}
use gemma_vllm_worker.Base.Text.{is_ascii}

-- `MAX_REQUEST_AGE_MS`
abbrev pub max_request_age_ms : ℕ
max_request_age_ms = 300000

-- What the check reads of a request.
pub record Request : Type 0 where
  pub signature : Option String
  pub timestamp : Option String
  pub method : String
  pub path : String
  pub query : String

-- `CP_INSTANCE_HMAC_SECRET` and `NEXUS_INSTANCE_ID`
pub record Environment : Type 0 where
  pub secret : Option String
  pub instance_id : Option String

-- `None`, an error response with its status and message, or an exception.
pub data Verdict : Type 0 where
  valid : Verdict
  response : ℕ → String → Verdict
  type_error : Verdict

abbrev pub unauthorized : String → Verdict
unauthorized message = response 401 message

-- The texts that are truthy.
abbrev pub given : Option String → Option String
given none = none
given (some s) = if s == "" then none else some s

-- The path that is signed, with its query.
abbrev pub full_path : Request → String
full_path r = if r.query == "" then r.path else r.path <> ("?" <> r.query)

-- `f"{timestamp}.{request.method}.{path}.{instance_id}"`
unfoldable pub message_of : String → String → String → String → String
message_of timestamp method path instance_id =
    timestamp <> ("." <> (method <> ("." <> (path <> ("." <> instance_id)))))

-- `hmac.compare_digest` raises on a text that is not ASCII.
unfoldable pub compare_digest : String → String → Verdict
compare_digest a b =
    if is_ascii a && is_ascii b
    then (if a == b then valid else unauthorized "Invalid HMAC signature")
    else type_error

module _ (sign : String → String → String) (env : Environment) (now_ms : ℕ) where
  -- From the secret on.
  unfoldable pub check_signature : Request → String → String → Verdict
  unfolding compare_digest
  check_signature r signature timestamp = elim (given env.secret) [
    | none ↦ response 500 "Server configuration error"
    | some secret ↦ elim (given env.instance_id) [
      | none ↦ response 500 "Server configuration error"
      | some instance_id ↦
          compare_digest signature
            (sign secret (message_of timestamp r.method (full_path r) instance_id))
    ]
  ]

  -- From the timestamp on.
  unfoldable pub check_time : Request → String → String → Verdict
  unfolding check_signature
  check_time r signature timestamp = elim (parse_int timestamp) [
    | none ↦ unauthorized "Invalid timestamp format"
    | some request_time ↦
        if ltb max_request_age_ms (distance (pos now_ms) request_time)
        then unauthorized "Request timestamp too old or in future"
        else check_signature r signature timestamp
  ]

  -- `verify_cp_hmac`
  unfoldable pub verify_cp_hmac : Request → Verdict
  unfolding check_time
  verify_cp_hmac r = elim (given r.signature) [
    | none ↦ unauthorized "Missing HMAC authentication headers"
    | some signature ↦ elim (given r.timestamp) [
      | none ↦ unauthorized "Missing HMAC authentication headers"
      | some timestamp ↦ check_time r signature timestamp
    ]
  ]

  -- `CpHmacMiddleware.dispatch`: what is returned in place of `call_next`, or `valid` where it is called.
  unfoldable pub dispatch : List String → Request → Verdict
  unfolding verify_cp_hmac
  dispatch exempt_paths r = if elem r.path exempt_paths then valid else verify_cp_hmac r

-- The exempt paths that src/server.py gives to the middleware.
abbrev pub exempt_paths : List String
exempt_paths = "/health" ∷ "/ready" ∷ "/ping" ∷ []
