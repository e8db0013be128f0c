-- ===== src/Auth/Window.antt =====
-- Which requests the middleware lets through, and for how long.
use gemma_vllm_worker.Base.{
  ℕ, ◌+◌, ◌≤◌, ◌<◌, ◌≡◌, ◌≢◌, ◌↔◌, ◌⊎◌, inl, inr, refl, sym, subst, ap, ◌∙◌, true, Option, none,
  some, List, String, arith, elem, string_comparable, eq_iff, eq_refl, Bool-cases, Option-cases,
}
use gemma_vllm_worker.Base.Int.{ℤ, pos, distance}
use gemma_vllm_worker.Base.Number.{parse_int}
use gemma_vllm_worker.Base.Text.{is_ascii}
use gemma_vllm_worker.Auth.{
  Request, Environment, valid, given, full_path, message_of, compare_digest, check_signature,
  check_time, verify_cp_hmac, dispatch, max_request_age_ms,
}

-- What the control plane must have done for a request to this instance.
pub record IsAuthentic (sign : String → String → String) (env : Environment) (now_ms : ℕ)
    (r : Request) : Type 0 where
  pub signature : String
  pub timestamp : String
  pub time : ℤ
  pub secret : String
  pub instance_id : String
  pub signature_sent : r.signature ≡ some signature
  pub timestamp_sent : r.timestamp ≡ some timestamp
  pub timestamp_read : parse_int timestamp ≡ some time
  pub fresh : distance (pos now_ms) time ≤ max_request_age_ms
  pub secret_set : env.secret ≡ some secret
  pub instance_set : env.instance_id ≡ some instance_id
  pub secret_nonempty : secret ≢ ""
  pub instance_nonempty : instance_id ≢ ""
  pub signature_nonempty : signature ≢ ""
  pub timestamp_nonempty : timestamp ≢ ""
  pub signature_ascii : is_ascii signature ≡ true
  pub signed : signature ≡ sign secret (message_of timestamp r.method (full_path r) instance_id)

given_lem : (o : Option String) (s : String) → (given o ≡ some s) ↔ ((o ≡ some s) × (s ≢ ""))
given_lem none s = ground arith
given_lem (some t) s = ground (arith, eq_iff t "", eq_iff s "")

compare_digest_lem : (a b : String) → (compare_digest a b ≡ valid) ↔ ((is_ascii a ≡ true) × (a ≡ b))
unfolding compare_digest
compare_digest_lem a b = (
  (λ v. ground (arith, eq_iff a b)),
  (λ (h, e). subst (λ c. compare_digest a c ≡ valid) e (ground (arith, eq_refl a))),
)

module _ (sign : String → String → String) (env : Environment) (now_ms : ℕ) (r : Request) where
  abbrev expected : String → String → String → String
  expected secret timestamp instance_id =
      sign secret (message_of timestamp r.method (full_path r) instance_id)

  check_signature_parts :
      (s t : String)
      → check_signature sign env now_ms r s t ≡ valid
      → (secret : String) × (instance_id : String) × (given env.secret ≡ some secret)
        × (given env.instance_id ≡ some instance_id)
        × (compare_digest s (expected secret t instance_id) ≡ valid)
  unfolding check_signature
  check_signature_parts s t v = elim (Option-cases (given env.secret)) [
    | inl missing ↦ absurd (ground arith)
    | inr (secret, a) ↦ elim (Option-cases (given env.instance_id)) [
      | inl missing ↦ absurd (ground arith)
      | inr (instance_id, b) ↦ (secret, instance_id, a, b, ground arith)
    ]
  ]

  check_time_parts :
      (s t : String)
      → check_time sign env now_ms r s t ≡ valid
      → (time : ℤ) × (parse_int t ≡ some time)
        × (distance (pos now_ms) time ≤ max_request_age_ms)
        × (check_signature sign env now_ms r s t ≡ valid)
  unfolding check_time
  check_time_parts s t v = elim (Option-cases (parse_int t)) [
    | inl missing ↦ absurd (ground arith)
    | inr (time, a) ↦ (time, a, ground arith, ground arith)
  ]

  verify_parts :
      verify_cp_hmac sign env now_ms r ≡ valid
      → (s : String) × (t : String) × (given r.signature ≡ some s)
        × (given r.timestamp ≡ some t)
        × (check_time sign env now_ms r s t ≡ valid)
  unfolding verify_cp_hmac
  verify_parts v = elim (Option-cases (given r.signature)) [
    | inl missing ↦ absurd (ground arith)
    | inr (s, a) ↦ elim (Option-cases (given r.timestamp)) [
      | inl missing ↦ absurd (ground arith)
      | inr (t, b) ↦ (s, t, a, b, ground arith)
    ]
  ]

  pub verify-IsAuthentic : verify_cp_hmac sign env now_ms r ≡ valid → IsAuthentic sign env now_ms r
  verify-IsAuthentic v =
      let (s, t, a, b, v') = verify_parts v in
      let (time, c, d, v'') = check_time_parts s t v' in
      let (secret, instance_id, e, f, g) = check_signature_parts s t v'' in
      let (ascii, same) = (compare_digest_lem s (expected secret t instance_id)).0 g in
      record {
        signature = s;
        timestamp = t;
        time = time;
        secret = secret;
        instance_id = instance_id;
        signature_sent = ((given_lem r.signature s).0 a).0;
        timestamp_sent = ((given_lem r.timestamp t).0 b).0;
        timestamp_read = c;
        fresh = d;
        secret_set = ((given_lem env.secret secret).0 e).0;
        instance_set = ((given_lem env.instance_id instance_id).0 f).0;
        secret_nonempty = ((given_lem env.secret secret).0 e).1;
        instance_nonempty = ((given_lem env.instance_id instance_id).0 f).1;
        signature_nonempty = ((given_lem r.signature s).0 a).1;
        timestamp_nonempty = ((given_lem r.timestamp t).0 b).1;
        signature_ascii = ascii;
        signed = same;
      }

  IsAuthentic-verify : IsAuthentic sign env now_ms r → verify_cp_hmac sign env now_ms r ≡ valid
  unfolding verify_cp_hmac
  IsAuthentic-verify h =
      let a = (given_lem r.signature h.signature).1 (h.signature_sent, h.signature_nonempty) in
      let b = (given_lem r.timestamp h.timestamp).1 (h.timestamp_sent, h.timestamp_nonempty) in
      let c = (given_lem env.secret h.secret).1 (h.secret_set, h.secret_nonempty) in
      let d = (given_lem env.instance_id h.instance_id).1 (h.instance_set, h.instance_nonempty) in
      let e = h.timestamp_read in
      let f =
        (compare_digest_lem h.signature (expected h.secret h.timestamp h.instance_id)).1
          (h.signature_ascii, h.signed) in
      let g = h.fresh in ground arith

-- The middleware calls the next handler exactly if the path is exempt or the request is authentic: a
-- signature and a readable timestamp are sent, the timestamp is at most five minutes away from the clock,
-- the secret and the instance id are set, and the signature is the ASCII hash of the timestamp, the
-- method, the path with its query and this instance's id.
pub dispatch_iff :
    (sign : String → String → String) (env : Environment) (now_ms : ℕ) (exempt : List String)
    (r : Request)
    → (dispatch sign env now_ms exempt r ≡ valid)
      ↔ ((elem r.path exempt ≡ true) ⊎ IsAuthentic sign env now_ms r)
unfolding dispatch
dispatch_iff sign env now_ms exempt r = elim (Bool-cases (elem r.path exempt)) [
  | inl free ↦ rw free ((λ v. inl refl), (λ h. refl))
  | inr gated ↦ rw gated (
    (λ v. inr (verify-IsAuthentic sign env now_ms r v)),
    elim [ inl e ↦ absurd (ground arith) | inr h ↦ IsAuthentic-verify sign env now_ms r h ],
  )
]

some_eq : {A : Type 0} (a b : A) → some a ≡ some b → a ≡ b
some_eq a b e = cc

-- A request that is let through by its signature at one moment is not let through by it, with the same
-- environment, more than ten minutes later: the window is five minutes to either side of the timestamp.
pub verify_expires :
    (sign : String → String → String) (env : Environment) (now later : ℕ) (r : Request)
    → verify_cp_hmac sign env now r ≡ valid
    → now + 600000 < later
    → verify_cp_hmac sign env later r ≢ valid
verify_expires sign env now later r v late w =
    let a = verify-IsAuthentic sign env now r v in
    let b = verify-IsAuthentic sign env later r w in
    let same : a.timestamp ≡ b.timestamp = some_eq _ _ (sym a.timestamp_sent ∙ b.timestamp_sent) in
    let times : a.time ≡ b.time =
      some_eq _ _ (sym a.timestamp_read ∙ ap parse_int same ∙ b.timestamp_read) in
    far a.time a.fresh (rw times b.fresh)
  where
    far : (t : ℤ) → distance (pos now) t ≤ 300000 → distance (pos later) t ≤ 300000 → ⊥
    far t h k = ground arith
