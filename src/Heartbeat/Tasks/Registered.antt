-- ===== src/Heartbeat/Tasks/Registered.antt =====
-- The registration of the worker in every interleaving of the tasks.
use gemma_vllm_worker.Base.{
  ℕ, ◌+◌, ◌≡◌, ◌⊎◌, refl, sym, ap, ◌∙◌, Bool, true, false, ◌||◌, List, [], ◌∷◌, ◌++◌, String, arith,
  inl, inr, string_comparable, nat_comparable,
}
use gemma_vllm_worker.Heartbeat.World.{
  Command, delete, srem, hset, heartbeat, Reply, ok, error, World,
}
use gemma_vllm_worker.Heartbeat.Shutdown.{is_running}
use gemma_vllm_worker.Heartbeat.Tasks.{
  Kind, first_beat, healthy, draining, Registry, effect, Enabled, Answered,
}
use gemma_vllm_worker.Heartbeat.Tasks.Protocol.{heard, Protocol, IsSound}

-- The two entries that Redis has of the worker.
pub data Entry : Type 0 where
  hash_entry member_entry : Entry

abbrev pub is_there : Entry → Registry → Bool
is_there hash_entry g = g.hash
is_there member_entry g = g.member

abbrev pub adds : Entry → Command → Bool
adds hash_entry (heartbeat k fields ttl s m) = true
adds hash_entry (hset k field value) = true
adds hash_entry cmd = false
adds member_entry (heartbeat k fields ttl s m) = true
adds member_entry cmd = false

abbrev pub removes : Entry → Command → Bool
removes hash_entry (delete k) = true
removes hash_entry cmd = false
removes member_entry (srem k m) = true
removes member_entry cmd = false

-- What writes the entry, except the heartbeat loop.
abbrev pub writes : Entry → Kind → Bool
writes hash_entry (first_beat now) = true
writes hash_entry healthy = true
writes hash_entry draining = true
writes hash_entry kind = false
writes member_entry (first_beat now) = true
writes member_entry kind = false

-- Whether Redis has confirmed such a command.
abbrev pub is_confirmed : (Command → Bool) → List (Command × Reply) → Bool
is_confirmed p [] = false
is_confirmed p ((k, ok) ∷ t) = p k || is_confirmed p t
is_confirmed p ((k, error m) ∷ t) = is_confirmed p t

abbrev pub IsStopped : World → Type 0
IsStopped w = is_running w.heartbeat_task ≡ false

effect-removes :
    (e : Entry) (k : Command) (g : Registry) → removes e k ≡ true → is_there e (effect k g) ≡ false
unfolding effect
effect-removes hash_entry k g h = ground arith
effect-removes member_entry k g h = ground arith

effect-adds :
    (e : Entry) (k : Command) (g : Registry)
    → adds e k ≡ false
    → is_there e g ≡ false
    → is_there e (effect k g) ≡ false
unfolding effect
effect-adds hash_entry k g h there = ground arith
effect-adds member_entry k g h there = ground arith

is_confirmed-append :
    (p : Command → Bool) (t : List (Command × Reply)) (k : Command) (r : Reply)
    → is_confirmed p (t ++ ((k, r) ∷ [])) ≡ is_confirmed p t || is_confirmed p ((k, r) ∷ [])
is_confirmed-append p [] k r = refl
is_confirmed-append p ((a, ok) ∷ t) k r = rw (is_confirmed-append p t k r) (ground arith)
is_confirmed-append p ((a, error m) ∷ t) k r = is_confirmed-append p t k r

is_confirmed-ok :
    (p : Command → Bool) (t : List (Command × Reply)) (k : Command)
    → is_confirmed p (t ++ ((k, ok) ∷ [])) ≡ true
    → (is_confirmed p t ≡ true) ⊎ (p k ≡ true)
is_confirmed-ok p t k h = either (is_confirmed p t) (p k) (sym (is_confirmed-append p t k ok) ∙ h)
  where
    either : (a b : Bool) → a || (b || false) ≡ true → (a ≡ true) ⊎ (b ≡ true)
    either a b e = ground arith

is_confirmed-error :
    (p : Command → Bool) (t : List (Command × Reply)) (k : Command) (m : String)
    → is_confirmed p (t ++ ((k, error m) ∷ [])) ≡ true
    → is_confirmed p t ≡ true
is_confirmed-error p t k m h =
    left (is_confirmed p t) (sym (is_confirmed-append p t k (error m)) ∙ h)
  where
    left : (a : Bool) → a || false ≡ true → a ≡ true
    left a e = ground arith

module _ (e : Entry) where
  -- Only the heartbeat loop writes the entry, and only a stopped worker removes it.
  abbrev pub entry : Protocol
  entry = record {
    Change = λ u v n m. (n ≡ m) × (IsStopped u → IsStopped v) × (v.trace ≡ u.trace);
    Send = λ loop w cmd n m.
        (n ≡ m) × (adds e cmd ≡ true → loop ≡ true) × (removes e cmd ≡ true → IsStopped w);
    Later = λ u v. IsStopped u → IsStopped v;
    Holds = λ w g n.
        (is_confirmed (removes e) w.trace ≡ true → IsStopped w)
        × (is_confirmed (removes e) w.trace ≡ true → is_there e g ≡ false);
  }

  -- A command with what the protocol asks of it.
  effect_holds :
      (loop : Bool) (w : World) (g : Registry) (cmd : Command)
      → Enabled loop w
      → (adds e cmd ≡ true → loop ≡ true)
      → (is_confirmed (removes e) w.trace ≡ true → IsStopped w)
      → (is_confirmed (removes e) w.trace ≡ true → is_there e g ≡ false)
      → is_confirmed (removes e) w.trace ≡ true
      → is_there e (effect cmd g) ≡ false
  effect_holds true w g cmd on adding stopped gone h = ground (arith, on, stopped h)
  effect_holds false w g cmd on adding stopped gone h =
      effect-adds e cmd g (not_adding (adds e cmd) adding) (gone h)
    where
      not_adding : (b : Bool) → (b ≡ true → false ≡ true) → b ≡ false
      not_adding b k = ground arith

  send_holds_lem :
      (loop : Bool) (w : World) (g g' : Registry) (cmd : Command) (r : Reply) (n m k : ℕ)
      → Enabled loop w
      → entry.Send loop w cmd n m
      → Answered cmd r g g'
      → entry.Holds w g (n + k)
      → entry.Holds (heard cmd r w) g' (m + k)
  send_holds_lem loop w g g' cmd ok n m k on (_, adding, removing) ans (stopped, gone) = (
    (λ h. elim (is_confirmed-ok (removes e) w.trace cmd h) [
      | inl before ↦ stopped before
      | inr now ↦ removing now
    ]),
    (λ h. ap (is_there e) ans ∙ elim (is_confirmed-ok (removes e) w.trace cmd h) [
      | inl before ↦ effect_holds loop w g cmd on adding stopped gone before
      | inr now ↦ effect-removes e cmd g now
    ]),
  )
  send_holds_lem loop w g g' cmd (error x) n m k on (_, adding, removing) ans (stopped, gone) = (
    (λ h. stopped (is_confirmed-error (removes e) w.trace cmd x h)),
    (λ h.
        let before = is_confirmed-error (removes e) w.trace cmd x h in
        elim ans [
          | inl done ↦
              ap (is_there e) done ∙ effect_holds loop w g cmd on adding stopped gone before
          | inr lost ↦ ap (is_there e) lost ∙ gone before
        ]),
  )

  -- A command that comes late.
  pub lingering-Holds :
      (w : World) (g : Registry) (cmd : Command) (n : ℕ)
      → (is_confirmed (removes e) w.trace ≡ true → adds e cmd ≡ true → ⊥)
      → entry.Holds w g n
      → entry.Holds w (effect cmd g) n
  lingering-Holds w g cmd n late (stopped, gone) =
      (stopped, (λ h. effect-adds e cmd g (is_false (adds e cmd) (late h)) (gone h)))
    where
      is_false : (b : Bool) → (b ≡ true → ⊥) → b ≡ false
      is_false b never = ground arith

  pub entry-IsSound : IsSound entry
  entry-IsSound = record {
    change_refl = λ w n. (refl, (λ h. h), refl);
    change_trans = λ u v w a b d (h, s, t) (h', s', t'). (h ∙ h', (λ x. s' (s x)), t' ∙ t);
    later_refl = λ w h. h;
    later_trans = λ u v w l l' h. l' (l h);
    change_later = λ u v n m (h, s, t). s;
    heard_later = λ cmd r w h. h;
    send_later = λ loop u v cmd n m (h, a, r) l. (h, a, (λ x. l (r x)));
    change_holds = λ u v g n m k (h, s, t) (stopped, gone). (
      (λ x. s (stopped (sym (ap (is_confirmed (removes e)) t) ∙ x))),
      (λ x. gone (sym (ap (is_confirmed (removes e)) t) ∙ x)),
    );
    send_holds = send_holds_lem;
    drop_holds = λ w g n k holds. holds;
  }
