-- ===== src/Lib.antt =====
-- A model of the worker that serves a Gemma model with vLLM: its Python code under src/ of the repository.
--
-- The parts and their files. The server answers OpenAI requests by the OpenAI engine, which batches what
-- vLLM streams; the middleware in front of it lets through what the control plane signed; the heartbeat
-- registers the worker in Redis with its load, and signals its end. The job interface of the same worker
-- batches the tokens of the vLLM engine.
--
-- Batch: class BatchSize of src/utils.py, over any numbers that have an order and a product (Quantity).
--   Batch/Growth and Batch/Natural hold its laws.
-- Generate: vLLMEngine._generate_vllm and generate of src/engine.py. The loop is a recursion on the
--   engine's events, with the local variables in the record Progress: take_output and flush are the inner
--   loop's body, close is what follows the loops. Generate/Tokens, Packing and Whole hold its laws.
-- OpenAi: OpenAIvLLMEngine of src/engine.py; gather is the loop over the streamed chunks, handle and route
--   the request's way. OpenAi/Chunks and OpenAi/Routes hold its laws.
-- Auth: src/middleware/cp_hmac_auth.py. verify_cp_hmac is in three parts, in the order of its returns.
--   Auth/Window and Auth/Message hold its laws.
-- Heartbeat: src/heartbeat/config.py; Heartbeat/World: the module globals of src/heartbeat/ as one record,
--   and the monad of the coroutines; Heartbeat/Service: src/heartbeat/heartbeat_service.py;
--   Heartbeat/Shutdown: src/heartbeat/__init__.py; Heartbeat/Idle: src/heartbeat/load_tracker.py.
--   Heartbeat/Quiet says which commands no operation sends; the other modules below hold the laws.
-- Heartbeat/Tasks: the coroutines of src/heartbeat/ await by await, and the interleavings of the tasks of a
--   worker: any task starts at any time, is answered by Redis in any way, or is cancelled at an await. A round
--   of the heartbeat loop is a task that runs only while the loop is not stopped; Registry is what Redis holds
--   of the worker. from_url, which returns at once, is taken as an await, which adds runs and drops none.
--   Tasks/Protocol and Tasks/Steady say what rules for single tasks give for all interleavings; Tasks/Signals,
--   and Tasks/Registered with Tasks/Removed, apply this to the signals and to the registration. Tasks/Alone
--   compares these coroutines, run without others, with those of Heartbeat/Service and Heartbeat/Shutdown.
-- Download: download of src/download_model.py; Model: ensure_model of src/boot_model.py, over the files
--   and the environment, with the hub as an environment that may answer by what was fetched before;
--   Model/Bake: the script of src/download_model.py, which puts the model into an image.
--   Download/Laws and Model/Laws hold their laws.
-- Server: src/server.py, the routes and responses; Server/Boot: its boot sequence; Server/Stop: the end of
--   the lifespan, the task that follows a CUDA error, and the list of models; Server/App: the application,
--   which puts the check of Auth before the routes, and these before the engine and the load; Server/Life: a
--   whole life of the server, from the boot to the end of the lifespan, or to the exit that a CUDA error or a
--   failed boot leads to, in which each coroutine runs by itself, and _fatal_shutdown right after the answer or
--   stream that met the error. Server/Life/Fatal, Server/Life/Ends, Server/Boot/Failed, Server/App/Gate, Server/Streams and Server/Traffic hold the laws.
-- Handler: src/handler.py, the job handler; Handler/Start: the start of the process. Handler/Errors holds the
--   laws of the handler.
-- EngineArgs: src/engine_args.py. EngineArgs/Types: the annotations of vLLM's fields and
--   _resolve_field_type; Convert: _convert_env_value_to_field_type; Sources: DEFAULT_ARGS, ENV_ALIASES,
--   _get_args_from_env_auto_discover, _apply_env_aliases, _local_args_to_engine_args; Overrides:
--   _sanitize_hf_overrides; Speculative: get_speculative_config; EngineArgs.antt: get_local_args,
--   _resolve_max_model_len and get_engine_args, which ends in the dict that AsyncEngineArgs is made of.
--   The records Python (floats, json.loads, the call of a type) and Vllm (the fields with their types, the
--   rejected rope scalings, a model's configuration, the number of GPUs) are the parameters. The other
--   modules below hold the laws, EngineArgs/Booted that of the boot and the engine's arguments together.
-- Tokenizer: src/tokenizer.py, and the choice of the tokenizer and the prompt in src/engine.py; JobInput:
--   JobInput of src/utils.py, and the handler from the input of a job on (handle_job), with the law of a
--   job with messages in JobInput/Prompts, from those in Tokenizer/Templates and JobInput/Parameters.
-- Constants: src/constants.py.
-- Engines: the constructors of vLLMEngine and OpenAIvLLMEngine, and _load_lora_adapters; Engines/Options:
--   the options that _initialize_engines reads from the environment; Engines/Serving: _initialize_engines.
--   Engines/Loras holds the law of the adapters.
-- Limits: convert_limit_mm_per_prompt of src/utils.py, with its laws in Limits/Pairs and Limits/Lookup.
-- Utilities: the helpers that nothing calls: count_physical_cores and get_int_bool_env of src/utils.py, and
--   dynamic_batch_size of src/engine.py; Utilities/Cores holds the law of the cores.
-- Base: what the parts share, that is tests, lists, Python's texts (with what holds of a search in a text
--   and of split in Base/Text/Contains and Base/Text/Split), dicts, JSON values (Base/Value), int(),
--   and Events, what a consumer sees of an async generator: the items, and whether it returns or raises.
--
-- Numbers. Python's ints are unbounded, so nothing wraps; counts are natural numbers, and what may
-- be negative where it is read, such as a timestamp, the idle minutes or an engine argument, is a ℤ. Times are whole
-- milliseconds. int() reads the digits of ASCII, and letter case is that of ASCII. The batch sizes may be
-- floats, which are left to Quantity; a NaN is not.
--
-- Termination. No definition has fuel: each loop is a recursion on the events of a generator that is taken
-- as finite, on a list, on the rounds of the idle monitor, or one round of the heartbeat's
-- endless loop, of which a run is a sequence of steps.
--
-- What is third-party is a parameter: the vLLM engine and its serving classes, JSON texts, HMAC-SHA256, the
-- clock, the host name, the hub of the models, and Redis, which answers each command in any way and may
-- suspend the task that awaits it. In Heartbeat/World a coroutine runs without others between its awaits, and
-- is one step of a run; what others do between its awaits is in Heartbeat/Tasks. There a command has its
-- effect in Redis when it is answered; one that fails, or whose task is cancelled, may have it at any later time,
-- as a parameter of the steps allows. In Heartbeat/World a publish that a pending cancellation interrupts counts
-- as not sent: the client is taken to suspend for the first time before it writes.
--
-- Not modelled: the constructors of vLLM's engine and serving classes, and what they do with their options;
-- of src/utils.py timer_decorator, and create_error_response with the dummy requests, which make objects of vLLM;
-- the request id of a job, which is random and only passed on; settings that load_dotenv reads from a file;
-- failing file operations; log lines; what FastAPI answers to what is no route, and the start of uvicorn;
-- requests to a server that skipped its model, which has no engine. The sizes that a job gives are taken as
-- numbers, and a JSON body as an object.
pub mod Base
pub mod Batch
pub mod Generate
pub mod OpenAi
pub mod Auth
pub mod Heartbeat
pub mod Download
pub mod Model
pub mod EngineArgs
pub mod Server
pub mod Handler
pub mod Tokenizer
pub mod JobInput
pub mod Constants
pub mod Engines
pub mod Limits
pub mod Utilities
mod Tests
