-- ===== src/Server/Traffic.antt =====
-- The load that the heartbeat reports is the number of requests in flight.
use gemma_vllm_worker.Base.{
  ℕ, suc, ◌+◌, ◌≡◌, Bool, true, false, Option, none, some, arith, nat_comparable, inl, inr,
  Bool-cases,
}
use gemma_vllm_worker.Base.Events.{Events}
use gemma_vllm_worker.OpenAi.{Reply}
use gemma_vllm_worker.Heartbeat.World.{World}
use gemma_vllm_worker.Heartbeat.Idle.{increment_load, decrement_load, touch_activity}
use gemma_vllm_worker.Server.{Json, Handled, answered, streaming, admit, handle_openai, end_stream}

-- How many streams a handled request leaves open.
abbrev pub opened : {Doc : Type 0} → Handled Doc → ℕ
opened (answered r) = 0
opened (streaming es) = 1

-- Requests in any order, with the number of those in flight. A request whose response is awaited while
-- others come is admitted and counted off in two steps; `request` is one that is handled at once, or opens
-- a stream, or is refused.
module _ {Doc : Type 0} (j : Json Doc) (wants_stream : Doc → Bool)
    (generate : Doc → Events (Reply Doc)) where
  abbrev pub handle : Bool → Option Doc → ℕ → ℕ → World → Handled Doc × World
  handle ready body now later w = handle_openai j ready body wants_stream generate now later w

  pub data Traffic (w : World) : World → ℕ → Type 0 where
    idle : Traffic w w 0
    request :
        (ready : Bool) (body : Option Doc) (now later : ℕ) {u : World} {n : ℕ}
        → Traffic w u n
        → Traffic w (handle ready body now later u).1 (opened (handle ready body now later u).0 + n)
    await : (now : ℕ) {u : World} {n : ℕ} → Traffic w u n → Traffic w (admit now u) (suc n)
    answer :
        (later : ℕ) {u : World} {n : ℕ} → Traffic w u (suc n) → Traffic w (decrement_load later u) n
    finish :
        (es : Events (Reply Doc)) (later : ℕ) {u : World} {n : ℕ}
        → Traffic w u (suc n)
        → Traffic w (end_stream j es later u).1 n

  handle_load :
      (ready : Bool) (body : Option Doc) (now later : ℕ) (w : World)
      → (handle ready body now later w).1.current_load
        ≡ opened (handle ready body now later w).0 + w.current_load
  unfolding handle_openai increment_load decrement_load touch_activity
  handle_load false body now later w = omega arith
  handle_load true none now later w = omega arith
  handle_load true (some body) now later w = elim (Bool-cases (wants_stream body)) [
    | inl streams ↦ rw streams (omega arith)
    | inr whole ↦ rw whole (ground arith)
  ]

  -- From a worker with no load, after any requests in any order, refused, answered at once, awaited or
  -- streamed, the load is the number of those that are awaited or whose stream is still open.
  pub Traffic_load : (w u : World) (n : ℕ) → w.current_load ≡ 0 → Traffic w u n → u.current_load ≡ n
  unfolding end_stream increment_load touch_activity decrement_load
  Traffic_load w u n none_yet t = go t
    where
      go : {v : World} {m : ℕ} → Traffic w v m → v.current_load ≡ m
      go idle = none_yet
      go (request ready body now later {u} t) =
          let ih = go t in omega (arith, handle_load ready body now later u)
      go (await now t) = let ih = go t in omega arith
      go (answer later t) = let ih = go t in ground arith
      go (finish es later t) = let ih = go t in ground arith
