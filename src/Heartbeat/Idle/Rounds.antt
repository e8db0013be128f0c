-- ===== src/Heartbeat/Idle/Rounds.antt =====
-- When the loop of the idle monitor ends.
use gemma_vllm_worker.Base.{
  ℕ, ◌+◌, ◌*◌, ◌≤◌, ◌⊎◌, ◌≡◌, refl, ap, ◌∙◌, Bool, true, false, ◌&&◌, List, String, [], ◌∷◌, ◌++◌,
  map, arith, if_true, if_false, ◌==◌, nat_comparable, Bool-cases, inl, inr, if◌then◌else◌,
}
use gemma_vllm_worker.Base.Int.{pos}
use gemma_vllm_worker.Heartbeat.World.{
  World, Outcome, returned, raised, cancelled, M, pure, bind_outcome, handle_outcome, ◌>>◌, modify,
  try_log,
}
use gemma_vllm_worker.Heartbeat.Shutdown.{stop_idle_timeout}
use gemma_vllm_worker.Heartbeat.Idle.{is_idle_since, idle_tick, Round, idle_monitor}

-- A round in which nobody else does anything.
abbrev pub undisturbed : ℕ → Round
undisturbed now = (λ w. w, now)

-- One of the times is not before another.
abbrev pub SomeFrom : ℕ → List ℕ → Type 0
SomeFrom due [] = ⊥
SomeFrom due (now ∷ nows) = (due ≤ now) ⊎ SomeFrom due nows

module _ (minutes : ℕ) (callback : M (Unit {0})) where
  -- What the loop ends with.
  abbrev pub shut_down : M Bool
  shut_down = do modify (stop_idle_timeout true); try_log callback; pure true

  not_ended :
      {w w' : World} → ◌≡◌ {A = Outcome Bool × World} (returned true, w) (returned false, w') → ⊥
  not_ended h = cc

  not_raised :
      {m : String} {w w' : World}
      → ◌≡◌ {A = Outcome Bool × World} (raised m, w) (returned false, w')
      → ⊥
  not_raised h = cc

  not_cancelled :
      {w w' : World} → ◌≡◌ {A = Outcome Bool × World} (cancelled, w) (returned false, w') → ⊥
  not_cancelled h = cc

  idle_monitor-append :
      (before after : List Round) (w w' : World)
      → idle_monitor (pos minutes) callback before w ≡ (returned false, w')
      → idle_monitor (pos minutes) callback (before ++ after) w
        ≡ idle_monitor (pos minutes) callback after w'
  unfolding idle_monitor
  idle_monitor-append [] after w w' e =
      ap (λ (r : Outcome Bool × World). idle_monitor (pos minutes) callback after r.1) e
  idle_monitor-append ((others, now) ∷ before) after w w' e =
      let (ended, v) = idle_tick (pos minutes) callback now (others w) in
      one ended v (λ v. idle_monitor-append before after v w') e
    where
      one :
          (o : Outcome Bool) (v : World)
          → ((v : World)
              → idle_monitor (pos minutes) callback before v ≡ (returned false, w')
              → idle_monitor (pos minutes) callback (before ++ after) v
                ≡ idle_monitor (pos minutes) callback after w')
          → bind_outcome o v
              (λ ended. if ended then pure true else idle_monitor (pos minutes) callback before)
            ≡ (returned false, w')
          → bind_outcome o v (λ ended.
            if ended then pure true else idle_monitor (pos minutes) callback (before ++ after))
            ≡ idle_monitor (pos minutes) callback after w'
      one (returned true) v ih h = absurd (not_ended h)
      one (returned false) v ih h = ih v h
      one (raised m) v ih h = absurd (not_raised h)
      one cancelled v ih h = absurd (not_cancelled h)

  -- What follows a round.
  abbrev next : List Round → Outcome Bool × World → Outcome Bool × World
  next rounds r =
      bind_outcome r.0 r.1
        (λ ended. if ended then pure true else idle_monitor (pos minutes) callback rounds)

  next-shut_down : (rounds : List Round) (w : World) → next rounds (shut_down w) ≡ shut_down w
  next-shut_down rounds w = let (o, v) = callback (stop_idle_timeout true w) in one o v
    where
      one :
          (o : Outcome (Unit {0})) (v : World)
          → next rounds (bind_outcome (handle_outcome o) v λ _. pure true)
            ≡ bind_outcome (handle_outcome o) v (λ _. pure true)
      one (returned a) v = refl
      one (raised m) v = refl
      one cancelled v = refl

  later :
      (now : ℕ) (nows : List ℕ) (w : World)
      → w.current_load ≡ 0
      → ((w.current_load == 0) && is_idle_since (pos minutes) w.last_activity now) ≡ false
      → SomeFrom (w.last_activity + minutes * 60000) (now ∷ nows)
      → SomeFrom (w.last_activity + minutes * 60000) nows
  unfolding is_idle_since
  later now nows w idle early (inl due) = absurd (ground arith)
  later now nows w idle early (inr due) = due

  idle_monitor-undisturbed :
      (nows : List ℕ) (w : World)
      → w.current_load ≡ 0
      → SomeFrom (w.last_activity + minutes * 60000) nows
      → idle_monitor (pos minutes) callback (map undisturbed nows) w ≡ shut_down w
  unfolding idle_monitor idle_tick
  idle_monitor-undisturbed [] w idle due = elim due [ ]
  idle_monitor-undisturbed (now ∷ nows) w idle due =
      elim (Bool-cases ((w.current_load == 0) && is_idle_since (pos minutes) w.last_activity now)) [
        | inl is_due ↦
            ap (next (map undisturbed nows)) (if_true _ (shut_down w) (pure false w) is_due)
            ∙ next-shut_down (map undisturbed nows) w
        | inr early ↦
            ap (next (map undisturbed nows)) (if_false _ (shut_down w) (pure false w) early)
            ∙ idle_monitor-undisturbed nows w idle (later now nows w idle early due)
      ]

-- The idle monitor ends on a worker that stays idle: where it has not ended so far, no request is counted, and
-- nobody does anything from then on, the loop ends once it wakes at a time when the timeout has passed. It
-- then cancels its own task and calls its callback under that cancellation, which may interrupt it, on the
-- state as it is, once, in whichever round this is, and does not wake again.
pub idle_monitor_ends :
    (minutes : ℕ) (callback : M (Unit {0})) (before : List Round) (nows : List ℕ) (w w' : World)
    → idle_monitor (pos minutes) callback before w ≡ (returned false, w')
    → w'.current_load ≡ 0
    → SomeFrom (w'.last_activity + minutes * 60000) nows
    → idle_monitor (pos minutes) callback (before ++ map undisturbed nows) w
      ≡ shut_down minutes callback w'
idle_monitor_ends minutes callback before nows w w' so_far idle due =
    idle_monitor-append minutes callback before (map undisturbed nows) w w' so_far
    ∙ idle_monitor-undisturbed minutes callback nows w' idle due
