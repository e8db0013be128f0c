-- ===== src/EngineArgs/Precedence.antt =====
-- Which source decides an argument of the vLLM engine.
use gemma_vllm_worker.Base.{◌≡◌, ◌∙◌, Option, some, String, string_comparable}
use gemma_vllm_worker.Base.Dict.{Dict, lookup}
use gemma_vllm_worker.Base.Dict.Layers.{NodupKeys}
use gemma_vllm_worker.EngineArgs.Types.{Python}
use gemma_vllm_worker.EngineArgs.{Vllm, Args, get_local_args, merged, get_engine_args}
use gemma_vllm_worker.EngineArgs.Merge.{kept, layered, lookup-merged}
use gemma_vllm_worker.EngineArgs.Untouched.{adjusted_keys, DiffersFrom, bind-some, lookup-adjusted}

-- Where the arguments can be had at all, every argument but the twelve that are adjusted afterwards has the
-- value of the strongest source that gives one: the local file of the boot, then the older names of the
-- variables, then the variable of the field, then the default; and it is left out if no source gives one,
-- if vLLM has no such field, or if that value is `None`, "" or "None".
pub get_engine_args-layered :
    (py : Python) (vllm : Vllm py.Float) (local_file : Option String) (env : Dict String)
    (args : Args py vllm) (k : String)
    → NodupKeys vllm.valid_fields
    → DiffersFrom adjusted_keys k
    → get_engine_args py vllm local_file env ≡ some args
    → (local : Args py vllm) × (env' : Dict String) × (get_local_args py vllm local_file env
        ≡ some (local, env'))
      × (lookup k args ≡ kept py vllm k (layered py vllm env local k))
unfolding get_engine_args
get_engine_args-layered py vllm local_file env args k known h e =
    let ((local, env'), read, rest) = bind-some (get_local_args py vllm local_file env) _ args e in
    (
      local,
      env',
      read,
      lookup-adjusted py vllm k env' (merged py vllm env local) args h rest
          ∙ lookup-merged py vllm env known k local,
    )
