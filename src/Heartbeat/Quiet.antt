-- ===== src/Heartbeat/Quiet.antt =====
-- Coroutines that send no command of a given kind, and leave the tasks and the shutdown flag alone.
use gemma_vllm_worker.Base.{
  ℕ, ◌+◌, ◌≤◌, ◌≡◌, refl, ◌∙◌, Bool, false, ◌&&◌, List, [], ◌∷◌, ◌++◌, arith, inl, inr, Bool-cases,
  if◌then◌else◌, String,
}
use gemma_vllm_worker.Base.Dict.{Dict}
use gemma_vllm_worker.Heartbeat.World.{
  Command, connect, heartbeat, hset, delete, srem, close, World, Redis, Reply, Outcome, returned,
  raised, cancelled, M, pure, ◌>>=◌, ◌>>◌, bind_outcome, try_log, perform,
}
use gemma_vllm_worker.Heartbeat.Service.{
  Context, get_redis, send_heartbeat, set_status, write_status, deregister, remove_registration,
  signal_termination, close_redis, termination,
}

-- How often a command of the kind `P` was sent and answered.
abbrev pub count_of : (Command → Bool) → List (Command × Reply) → ℕ
count_of P [] = 0
count_of P ((c, r) ∷ t) = (if P c then 1 else 0) + count_of P t

pub count_of-append :
    (P : Command → Bool) (s t : List (Command × Reply))
    → count_of P (s ++ t) ≡ count_of P s + count_of P t
count_of-append P [] t = omega arith
count_of-append P ((c, r) ∷ s) t = omega (arith, count_of-append P s t)

pub record Same (P : Command → Bool) (w w' : World) : Type 0 where
  pub counted : count_of P w'.trace ≡ count_of P w.trace
  pub flag : w'.shutdown_signaled ≡ w.shutdown_signaled
  pub heartbeat_kept : w'.heartbeat_task ≡ w.heartbeat_task
  pub idle_kept : w'.idle_task ≡ w.idle_task

pub Same-refl : (P : Command → Bool) (w : World) → Same P w w
Same-refl P w = record { counted = refl; flag = refl; heartbeat_kept = refl; idle_kept = refl }

pub Same-trans : (P : Command → Bool) (u v w : World) → Same P u v → Same P v w → Same P u w
Same-trans P u v w h k = record {
  counted = k.counted ∙ h.counted;
  flag = k.flag ∙ h.flag;
  heartbeat_kept = k.heartbeat_kept ∙ h.heartbeat_kept;
  idle_kept = k.idle_kept ∙ h.idle_kept;
}

module _ (P : Command → Bool) where
  abbrev pub IsQuiet : {A : Type 0} → M A → Type 0
  IsQuiet m = (w : World) → Same P w (m w).1

  pub perform-IsQuiet : (r : Redis) (c : Command) → P c ≡ false → IsQuiet (perform r c)
  unfolding perform
  perform-IsQuiet r c h w = elim (Bool-cases (w.cancel_pending && r.suspends c)) [
    | inl stop ↦
        rw stop (record { counted = refl; flag = refl; heartbeat_kept = refl; idle_kept = refl })
    | inr go ↦ rw go (record {
      counted = count_of-append P w.trace _ ∙ rw h (omega arith);
      flag = refl;
      heartbeat_kept = refl;
      idle_kept = refl;
    })
  ]

  bind_outcome-Same :
      {A B : Type 0} (u : World) (o : Outcome A) (w : World) (f : A → M B)
      → Same P u w
      → ((a : A) → IsQuiet (f a))
      → Same P u (bind_outcome o w f).1
  bind_outcome-Same u (returned a) w f h k = Same-trans P u w _ h (k a w)
  bind_outcome-Same u (raised m) w f h k = h
  bind_outcome-Same u cancelled w f h k = h

  pub >>=-IsQuiet :
      {A B : Type 0} (m : M A) (f : A → M B)
      → IsQuiet m
      → ((a : A) → IsQuiet (f a))
      → IsQuiet (m >>= f)
  >>=-IsQuiet m f h k w = bind_outcome-Same w (m w).0 (m w).1 f (h w) k

  pub >>-IsQuiet :
      {B : Type 0} (m : M (Unit {0})) (k : M B) → IsQuiet m → IsQuiet k → IsQuiet (m >> k)
  >>-IsQuiet m k h h' = >>=-IsQuiet m (λ _. k) h (λ _. h')

  pub try_log-IsQuiet : (m : M (Unit {0})) → IsQuiet m → IsQuiet (try_log m)
  try_log-IsQuiet m h w = h w

  if-IsQuiet :
      {A : Type 0} (test : World → Bool) (m k : M A)
      → IsQuiet m
      → IsQuiet k
      → IsQuiet (λ w. if test w then m w else k w)
  if-IsQuiet test m k h h' w = elim (Bool-cases (test w)) [
    | inl t ↦ rw t (h w)
    | inr f ↦ rw f (h' w)
  ]

  -- At most one such command is sent.
  pub record AddsOne (w w' : World) : Type 0 where
    pub bounded : count_of P w'.trace ≤ count_of P w.trace + 1
    pub same_flag : w'.shutdown_signaled ≡ w.shutdown_signaled
    pub same_heartbeat : w'.heartbeat_task ≡ w.heartbeat_task

  pub perform-AddsOne : (r : Redis) (c : Command) (w : World) → AddsOne w (perform r c w).1
  unfolding perform
  perform-AddsOne r c w = elim (Bool-cases (w.cancel_pending && r.suspends c)) [
    | inl stop ↦ rw stop (record { bounded = omega arith; same_flag = refl; same_heartbeat = refl })
    | inr go ↦ rw go (record {
      bounded = ground (arith, count_of-append P w.trace ((c, r.answer w.trace c) ∷ []));
      same_flag = refl;
      same_heartbeat = refl;
    })
  ]

  pub Same-AddsOne : (u v w : World) → Same P u v → AddsOne v w → AddsOne u w
  Same-AddsOne u v w h k = record {
    bounded = omega (arith, h.counted, k.bounded);
    same_flag = k.same_flag ∙ h.flag;
    same_heartbeat = k.same_heartbeat ∙ h.heartbeat_kept;
  }

  pub AddsOne-Same : (u v w : World) → AddsOne u v → Same P v w → AddsOne u w
  AddsOne-Same u v w h k = record {
    bounded = omega (arith, h.bounded, k.counted);
    same_flag = k.flag ∙ h.same_flag;
    same_heartbeat = k.heartbeat_kept ∙ h.same_heartbeat;
  }

  -- A quiet call, then one that adds at most one; and the other way round.
  pub quiet_then :
      {B : Type 0} (m : M (Unit {0})) (k : M B)
      → IsQuiet m
      → ((w : World) → AddsOne w (k w).1)
      → (w : World) → AddsOne w ((m >> k) w).1
  quiet_then m k h h' w = after (m w).0
    where
      after : (o : Outcome (Unit {0})) → AddsOne w (bind_outcome o (m w).1 (λ _. k)).1
      after (returned a) = Same-AddsOne w (m w).1 _ (h w) (h' (m w).1)
      after (raised x) =
          Same-AddsOne w (m w).1 _ (h w)
            (record { bounded = omega arith; same_flag = refl; same_heartbeat = refl })
      after cancelled =
          Same-AddsOne w (m w).1 _ (h w)
            (record { bounded = omega arith; same_flag = refl; same_heartbeat = refl })

  pub then_quiet :
      {B : Type 0} (m : M (Unit {0})) (k : M B)
      → ((w : World) → AddsOne w (m w).1)
      → IsQuiet k
      → (w : World) → AddsOne w ((m >> k) w).1
  then_quiet m k h h' w = after (m w).0
    where
      after : (o : Outcome (Unit {0})) → AddsOne w (bind_outcome o (m w).1 (λ _. k)).1
      after (returned a) = AddsOne-Same w (m w).1 _ (h w) (h' (m w).1)
      after (raised x) = h w
      after cancelled = h w

  module _ (c : Context) (connects : P connect ≡ false) where
    pub get_redis-IsQuiet : IsQuiet (get_redis c)
    unfolding get_redis
    get_redis-IsQuiet =
        if-IsQuiet (λ w. w.redis_open) (pure tt) _ (Same-refl P)
          (>>-IsQuiet (perform c.redis connect) _ (perform-IsQuiet c.redis connect connects)
            (λ w. record { counted = refl; flag = refl; heartbeat_kept = refl; idle_kept = refl }))

    pub send_heartbeat-IsQuiet :
        (now : ℕ)
        → ((k : String) (d : Dict String) (ttl : ℕ) (s m : String)
            → P (heartbeat k d ttl s m) ≡ false)
        → IsQuiet (send_heartbeat c now)
    unfolding send_heartbeat
    send_heartbeat-IsQuiet now h =
        >>-IsQuiet (get_redis c) _ get_redis-IsQuiet
          (λ w. perform-IsQuiet c.redis _ (h _ _ _ _ _) w)

    pub set_status-IsQuiet :
        (status : String)
        → ((k f v : String) → P (hset k f v) ≡ false)
        → IsQuiet (set_status c status)
    unfolding set_status write_status
    set_status-IsQuiet status h w =
        let v = record w { current_status = status } in
        let wrote : IsQuiet (write_status c status) =
          >>-IsQuiet (get_redis c) (perform c.redis _) get_redis-IsQuiet
            (perform-IsQuiet c.redis _ (h _ _ _)) in
        Same-trans P w v _
          (record { counted = refl; flag = refl; heartbeat_kept = refl; idle_kept = refl })
          (try_log-IsQuiet (write_status c status) wrote v)

    pub deregister-IsQuiet :
        ((k : String) → P (delete k) ≡ false)
        → ((k m : String) → P (srem k m) ≡ false)
        → IsQuiet (deregister c)
    unfolding deregister remove_registration
    deregister-IsQuiet h k = try_log-IsQuiet (remove_registration c) (
        >>-IsQuiet (get_redis c) _ get_redis-IsQuiet (
          >>-IsQuiet (perform c.redis _) _ (perform-IsQuiet c.redis _ (h _))
            (perform-IsQuiet c.redis _ (k _ _))))

    pub signal_termination-IsQuiet :
        (reason : String) → P (termination c reason) ≡ false → IsQuiet (signal_termination c reason)
    unfolding signal_termination
    signal_termination-IsQuiet reason h =
        >>-IsQuiet (get_redis c) _ get_redis-IsQuiet (perform-IsQuiet c.redis _ h)

  pub close_redis-IsQuiet : (c : Context) → P close ≡ false → IsQuiet (close_redis c)
  unfolding close_redis
  close_redis-IsQuiet c h =
      if-IsQuiet (λ w. w.redis_open) _ (pure tt)
        (>>-IsQuiet (perform c.redis close) _ (perform-IsQuiet c.redis close h)
          (λ w. record { counted = refl; flag = refl; heartbeat_kept = refl; idle_kept = refl }))
        (Same-refl P)
