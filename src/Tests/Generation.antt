-- ===== src/Tests/Generation.antt =====
-- Batch sizes and the batches of `generate_vllm`.
use Prim.Native.Nat.{◌^◌}
use gemma_vllm_worker.Base.{
  ℕ, ◌*◌, min, ◌≡◌, refl, Bool, true, false, none, some, [], ◌∷◌, String, arith,
}
use gemma_vllm_worker.Base.Events.{Events, done, item, items, IsComplete}
use gemma_vllm_worker.Batch.{natural, new, update, le}
use gemma_vllm_worker.Batch.Growth.{updates, updates_bounds}
use gemma_vllm_worker.Batch.Natural.{natural-IsQuantity, updates_lem}
use gemma_vllm_worker.Generate.{RequestOutput, TokenBatch, Settings, Request, start, generate_vllm}
use gemma_vllm_worker.Generate.Tokens.{yielded, yielded-generate_vllm}
use gemma_vllm_worker.Generate.Packing.{IsPacked, generate_vllm-IsPacked}
use gemma_vllm_worker.Generate.Whole.{IsWhole, generate_vllm-IsComplete, generate_vllm-IsWhole}

-- The defaults of src/constants.py.
abbrev settings : Settings ℕ
settings = record { default_batch_size = 50; batch_size_growth_factor = 3; min_batch_size = 1 }

abbrev ask : Bool → Request ℕ
ask stream = record {
  stream = stream;
  n_responses = 2;
  max_batch_size = none;
  batch_size_growth_factor = none;
  min_batch_size = some 0;
}

abbrev output : ℕ → String → RequestOutput
output i s = record { prompt_tokens = 7; outputs = record { index = i; text = s } ∷ [] }

abbrev run : Events RequestOutput
run = item (output 0 "a") (item (output 1 "he") (item (output 0 "ab") (item (output 1 "hey") done)))

sizes :
    ((updates natural 3 (new natural 50 1 3)).current_batch_size ≡ 27)
    × ((updates natural 4 (new natural 50 1 3)).current_batch_size ≡ 50)
unfolding updates update new
sizes = (refl, refl)

-- The first batch holds one token, the second three.
batches :
    items (generate_vllm natural settings (ask true) run)
    ≡ record { choices = ("a" ∷ []) ∷ [] ∷ []; usage = record { input = 7; output = 1 } }
      ∷ record {
        choices = ("b" ∷ []) ∷ ("he" ∷ "y" ∷ []) ∷ [];
        usage = record { input = 7; output = 4 };
      }
      ∷ []
unfolding generate_vllm update new
batches = refl

updates_bounds_example :
    let b = updates natural 2 (new natural 50 1 3) in
    (le natural b.current_batch_size b.max_batch_size ≡ true)
    × (le natural b.current_batch_size (updates natural 3 (new natural 50 1 3)).current_batch_size
        ≡ true)
    × (b.is_dynamic ≡ true → le natural b.min_batch_size b.current_batch_size ≡ true)
updates_bounds_example = updates_bounds natural natural-IsQuantity 2 50 1 3

updates_lem_example :
    (updates natural 3 (new natural 50 1 3)).current_batch_size ≡ min (1 * 3 ^ 3) 50
updates_lem_example = updates_lem 3 50 1 3 (omega arith) (omega arith) (omega arith)

yielded-generate_vllm_example :
    yielded 1 (items (generate_vllm natural settings (ask true) run)) ≡ "hey"
unfolding generate_vllm update new
yielded-generate_vllm_example =
    yielded-generate_vllm natural settings (ask true) run 1 refl
      (("a", refl), (("he", refl), (("b", refl), (("y", refl), tt)))) tt

generate_vllm-IsPacked_example :
    IsPacked natural 7 0
      (start natural settings (ask true)).batch_size
      (items (generate_vllm natural settings (ask true) run))
generate_vllm-IsPacked_example = generate_vllm-IsPacked natural settings (ask true) run refl

generate_vllm-IsComplete_example : IsComplete (generate_vllm natural settings (ask true) run)
generate_vllm-IsComplete_example =
    generate_vllm-IsComplete natural settings (ask true) run tt (omega arith)

generate_vllm-IsWhole_example :
    (b : TokenBatch) × (generate_vllm natural settings (ask false) run ≡ item b done)
    × IsWhole 2 run b
generate_vllm-IsWhole_example =
    generate_vllm-IsWhole natural settings (ask false) run refl tt (omega arith)
