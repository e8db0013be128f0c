-- ===== src/Server/Boot.antt =====
-- `_boot_in_background` of src/server.py, over the heartbeat's world. The download of the model and the
-- construction of the engines are given by their outcomes.
pub mod Failed
use gemma_vllm_worker.Base.{
  ◌≡◌, ◌≢◌, ◌⊎◌, ◌↔◌, refl, Bool, true, false, ◌||◌, none, some, String, ◌==◌, string_comparable,
  if◌then◌else◌, arith, get_or, inl, inr, Bool-cases,
}
use gemma_vllm_worker.Base.Text.{lower}
use gemma_vllm_worker.Base.Dict.{Dict, lookup, insert}
use gemma_vllm_worker.OpenAi.{Attempt, value, failed}
use gemma_vllm_worker.Heartbeat.{is_heartbeat_enabled}
use gemma_vllm_worker.Heartbeat.World.{World, Outcome, returned, raised, cancelled}
use gemma_vllm_worker.Heartbeat.Service.{Context, start_heartbeat, mark_healthy}
use gemma_vllm_worker.Heartbeat.Shutdown.{graceful_shutdown}
use gemma_vllm_worker.Heartbeat.Idle.{start_idle_timeout}

-- How the boot task ends: it returns, exits the process with a status, or dies of an exception.
pub data Ending : Type 0 where
  booted : Ending
  exited : Ending
  died : Ending

pub record Booted : Type 0 where
  pub ending : Ending
  pub engines_ready : Bool
  pub env : Dict String
  pub world : World

abbrev pub skips_model : Dict String → Bool
skips_model env =
    let flag = lower (get_or (lookup "SKIP_MODEL_LOAD" env) "") in
    flag == "1" || flag == "true" || flag == "yes"

-- `if model_args.get(key): os.environ[key] = model_args[key]`
abbrev pub export : String → Dict String → Dict String → Dict String
export key args env = elim (lookup key args) [
  | none ↦ env
  | some v ↦ if v == "" then env else insert key v env
]

module _ (c : Context) where
  abbrev pub exit_after : Outcome (Unit {0}) → Ending
  exit_after (returned a) = exited
  exit_after (raised m) = died
  exit_after cancelled = died

  -- The `except` clauses: signal "unhealthy" if the heartbeat is enabled, then `sys.exit(1)`.
  unfoldable pub fail : Dict String → World → Booted
  fail env w =
      if is_heartbeat_enabled c.config
      then (let (o, w') = graceful_shutdown c "unhealthy" w in
          record { ending = exit_after o; engines_ready = false; env = env; world = w' })
      else record { ending = exited; engines_ready = false; env = env; world = w }

  abbrev pub end_of : Outcome (Unit {0}) → Ending
  end_of (returned a) = booted
  end_of (raised m) = died
  end_of cancelled = died

  abbrev pub idle_if : Outcome (Unit {0}) → World → World
  idle_if (returned a) w = start_idle_timeout c.config.idle_timeout_minutes w
  idle_if (raised m) w = w
  idle_if cancelled w = w

  -- Phases 3 and 4.
  unfoldable pub go_live : Dict String → World → Booted
  go_live env w =
      if is_heartbeat_enabled c.config
      then (let (o, w') = mark_healthy c w in
          record { ending = end_of o; engines_ready = true; env = env; world = idle_if o w' })
      else record { ending = booted; engines_ready = true; env = env; world = w }

  -- Phase 2, with the outcome of the engines.
  unfoldable pub start_engines : Attempt (Unit {0}) → Dict String → World → Booted
  unfolding go_live fail
  start_engines (value a) env w = go_live env w
  start_engines (failed m) env w = fail env w

  -- Phase 1.5, with the outcome of `ensure_model`.
  unfoldable pub load_model :
      Attempt (Dict String) → Attempt (Unit {0}) → Dict String → World → Booted
  unfolding start_engines fail
  load_model (value args) engines env w =
      start_engines engines (export "TOKENIZER_NAME" args (export "MODEL_NAME" args env)) w
  load_model (failed m) engines env w = fail env w

  -- `_boot_in_background`
  unfoldable pub boot : Attempt (Dict String) → Attempt (Unit {0}) → Dict String → World → Booted
  unfolding load_model
  boot model engines env w =
      if skips_model env
      then record { ending = booted; engines_ready = true; env = env; world = w }
      else load_model model engines env (start_heartbeat c w)

abbrev pub Succeeds : {A : Type 0} → Attempt A → Type 0
Succeeds (value a) = Unit
Succeeds (failed m) = ⊥

fail_lem :
    (c : Context) (env : Dict String) (w : World)
    → ((fail c env w).engines_ready ≡ false) × ((fail c env w).ending ≢ booted)
unfolding fail
fail_lem c env w = elim (Bool-cases (is_heartbeat_enabled c.config)) [
  | inl on ↦ rw on (refl, ended (graceful_shutdown c "unhealthy" w).0)
  | inr off ↦ rw off (refl, (λ e. cc))
]
  where
    ended : (o : Outcome (Unit {0})) → exit_after c o ≢ booted
    ended (returned a) e = cc
    ended (raised m) e = cc
    ended cancelled e = cc

go_live_lem : (c : Context) (env : Dict String) (w : World) → (go_live c env w).engines_ready ≡ true
unfolding go_live
go_live_lem c env w = ground arith

load_model_ready :
    (c : Context) (model : Attempt (Dict String)) (engines : Attempt (Unit {0})) (env : Dict String)
    (w : World)
    → ((load_model c model engines env w).engines_ready ≡ true)
      ↔ (Succeeds model × Succeeds engines)
unfolding load_model
load_model_ready c (value args) (value a) env w = ((λ h. (tt, tt)), (λ h. go_live_lem c _ w))
load_model_ready c (value args) (failed m) env w = (
  (λ h. absurd (
      ground
        (arith, (fail_lem c (export "TOKENIZER_NAME" args (export "MODEL_NAME" args env)) w).0))),
  (λ h. absurd h.1),
)
load_model_ready c (failed m) engines env w =
    ((λ h. absurd (ground (arith, (fail_lem c env w).0))), (λ h. absurd h.0))

-- The engines are reported as ready exactly if the model is skipped, or both the model and the engines
-- were loaded.
pub boot_ready :
    (c : Context) (model : Attempt (Dict String)) (engines : Attempt (Unit {0})) (env : Dict String)
    (w : World)
    → ((boot c model engines env w).engines_ready ≡ true)
      ↔ ((skips_model env ≡ true) ⊎ (Succeeds model × Succeeds engines))
unfolding boot
boot_ready c model engines env w = elim (Bool-cases (skips_model env)) [
  | inl skip ↦ rw skip ((λ h. inl refl), (λ h. refl))
  | inr load ↦
      let (to, from) = load_model_ready c model engines env (start_heartbeat c w) in
      rw load ((λ h. inr (to h)), elim [ inl e ↦ absurd (ground arith) | inr h ↦ from h ])
]
