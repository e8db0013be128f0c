-- ===== src/Server/Life.antt =====
-- The life of the server of src/server.py: its boot, the requests that it gets and the heartbeats that it
-- sends in any order, and the end of its lifespan, or of the process where it exits before.
pub mod Calm
pub mod Fatal
pub mod Ends
use gemma_vllm_worker.Base.{ℕ, Bool, false, Option, List, [], ◌∷◌, String, if◌then◌else◌}
use gemma_vllm_worker.Base.Dict.{Dict}
use gemma_vllm_worker.Batch.{Quantity}
use gemma_vllm_worker.Generate.{Settings}
use gemma_vllm_worker.OpenAi.{Serving, Attempt}
use gemma_vllm_worker.Auth.{Environment}
use gemma_vllm_worker.Heartbeat.World.{World, Outcome}
use gemma_vllm_worker.Heartbeat.Service.{Context, send_heartbeat}
use gemma_vllm_worker.Server.{Json}
use gemma_vllm_worker.Server.App.{App, Event, serve_event}
use gemma_vllm_worker.Server.Boot.{Ending, booted, exited, died, Booted, boot}
use gemma_vllm_worker.Server.Stop.{lifespan_end, fatal_shutdown}

-- What happens between the boot and the end: an event of the application, or a heartbeat at a time.
pub data Activity (Doc : Type 0) : Type 0 where
  serves : Event Doc → Activity Doc
  beats : ℕ → Activity Doc

-- How the process ends: with its lifespan, or by an exit.
pub data LifeEnd : Type 0 where
  lifespan_ends : Outcome (Unit {0}) → LifeEnd
  exits : Ending → LifeEnd

module _ (c : Context) (q : Quantity) (v : Serving) (settings : Settings q.Num) (raw : Bool)
    (j : Json v.Doc) (wants_stream : v.Doc → Bool) (sign : String → String → String)
    (env : Environment) where
  -- Up to the first CUDA error, which ends the process: its `_fatal_shutdown` is taken to run next.
  unfoldable pub live : List (Activity v.Doc) → App → App
  unfolding serve_event send_heartbeat
  live [] a = a
  live (serves e ∷ es) a =
      let b = (serve_event q v settings raw j wants_stream sign env e a).1 in
      let rest = live es b in if b.fatal then b else rest
  live (beats now ∷ es) a = live es (record a { world = (send_heartbeat c now a.world).1 })

  abbrev pub end_of_life : App → LifeEnd × World
  end_of_life a =
      let (o, w) = lifespan_end c a.world in
      let (e, w') = fatal_shutdown c a.world in
      if a.fatal then (exits e, w') else (lifespan_ends o, w)

  abbrev pub serving : Booted → App
  serving b = record {
    engines_ready = b.engines_ready;
    engines_initialized = false;
    fatal = false;
    world = b.world;
  }

  -- A boot that exits ends the process; one that dies of an exception leaves the server running.
  abbrev pub after_boot : Ending → Booted → List (Activity v.Doc) → LifeEnd × World
  after_boot booted b activities = end_of_life (live activities (serving b))
  after_boot exited b activities = (exits exited, b.world)
  after_boot died b activities = end_of_life (live activities (serving b))

  -- From the boot, with the outcomes of the model and of the engines, to the end of the process.
  unfoldable pub life :
      Attempt (Dict String)
      → Attempt (Unit {0})
      → Dict String
      → List (Activity v.Doc)
      → World
      → LifeEnd × World
  unfolding live boot lifespan_end fatal_shutdown
  life model engines variables activities w =
      let b = boot c model engines variables w in after_boot b.ending b activities
