-- ===== src/Tests/Living.antt =====
-- A life of the server, with requests that are signed and not, and two heartbeats.
use gemma_vllm_worker.Base.{◌≡◌, refl, Bool, true, false, List, [], ◌∷◌, ◌++◌, map, String}
use gemma_vllm_worker.Base.Text.{lower, is_ascii, contains}
use gemma_vllm_worker.Base.Number.{parse_int}
use gemma_vllm_worker.Base.Dict.{lookup}
use gemma_vllm_worker.Base.Events.{raise}
use gemma_vllm_worker.Batch.{natural}
use gemma_vllm_worker.OpenAi.{value}
use gemma_vllm_worker.Heartbeat.{is_heartbeat_enabled}
use gemma_vllm_worker.Heartbeat.World.{World, initial_world}
use gemma_vllm_worker.Auth.{message_of}
use gemma_vllm_worker.Heartbeat.Service.{mark_healthy, start_heartbeat}
use gemma_vllm_worker.Heartbeat.Idle.{
  decrement_load, touch_activity, increment_load, start_idle_timeout,
}
use gemma_vllm_worker.Server.Boot.{exited, boot}
use gemma_vllm_worker.Server.App.{stream_ends}
use gemma_vllm_worker.Server.Life.{
  LifeEnd, Activity, serves, beats, exits, serving as serving_after, life,
}
use gemma_vllm_worker.Server.Life.Fatal.{meets_cuda}
use gemma_vllm_worker.Tests.Lifecycle.{calm}
use gemma_vllm_worker.Tests.Serving.{settings, serving, json}
use gemma_vllm_worker.Tests.Signing.{sign, env}
use gemma_vllm_worker.Tests.Requests.{requests}

-- The last stream meets a CUDA error, after which nothing is served.
abbrev activities : List (Activity String)
activities =
    beats 5
    ∷ (map serves requests
        ++ (beats 70 ∷ serves (stream_ends (raise "CUDA error") 80) ∷ beats 90 ∷ []))

abbrev ended : LifeEnd × World
ended =
    life calm natural serving settings true json (λ d. false) sign env (value []) (value tt) []
      activities (initial_world 3)

abbrev met : Bool
met =
    meets_cuda natural serving settings true json (λ d. false) sign env calm activities
      (serving_after calm natural serving settings true json (λ d. false) sign env
        (boot calm (value []) (value tt) [] (initial_world 3)))

-- That life ends by an exit.
life_ends_by_exit : ended.0 ≡ exits exited
unfolding life boot initial_world is_heartbeat_enabled lookup lower mark_healthy start_heartbeat
    parse_int is_ascii message_of contains decrement_load touch_activity increment_load
    start_idle_timeout
life_ends_by_exit = refl
