-- ===== src/Batch.antt =====
-- src/utils.py, class `BatchSize`: how many tokens or chunks the engines put in one yielded batch.
-- The three settings are Python numbers, ints or (the growth factor of a job) floats, so the class is
-- generic in them; `Quantity` names what it uses of such numbers and `IsQuantity` what holds of them
-- (no NaN).
pub mod Growth
pub mod Natural
use gemma_vllm_worker.Base.{ℕ, ◌*◌, ◌≡◌, Bool, true, false, ◌&&◌, not, ltb, if◌then◌else◌}

pub record Quantity : Type 1 where
  pub Num : Type 0
  pub of_count : ℕ → Num
  pub lt : Num → Num → Bool
  pub mul : Num → Num → Num

-- `a <= b`, where no number is NaN.
abbrev pub le : (q : Quantity) → q.Num → q.Num → Bool
le q a b = not (q.lt b a)

-- Python's `min(a, b)`, which returns the second only if it is smaller.
abbrev pub least : (q : Quantity) → q.Num → q.Num → q.Num
least q a b = if q.lt b a then b else a

-- Truth of a number, as in `a or b`.
abbrev pub is_truthy : (q : Quantity) → q.Num → Bool
is_truthy q a = not (le q a (q.of_count 0) && le q (q.of_count 0) a)

pub record IsQuantity (q : Quantity) : Type 0 where
  pub le_trans : (a b c : q.Num) → le q a b ≡ true → le q b c ≡ true → le q a c ≡ true
  pub le_of_lt : (a b : q.Num) → q.lt a b ≡ true → le q a b ≡ true
  pub le_refl : (a : q.Num) → le q a a ≡ true
  -- Growing a number that is at least one by a factor above one does not shrink it.
  pub grows :
      (a g : q.Num)
      → q.lt (q.of_count 1) g ≡ true
      → le q (q.of_count 1) a ≡ true
      → le q a (q.mul a g) ≡ true

pub record BatchSize (N : Type 0) : Type 0 where
  pub max_batch_size : N
  pub batch_size_growth_factor : N
  pub min_batch_size : N
  pub is_dynamic : Bool
  pub current_batch_size : N

abbrev pub grows_from : (q : Quantity) → q.Num → q.Num → q.Num → Bool
grows_from q max_size min_size growth =
    q.lt (q.of_count 1) growth && le q (q.of_count 1) min_size && q.lt min_size max_size

-- `BatchSize.__init__`
unfoldable pub new : (q : Quantity) → q.Num → q.Num → q.Num → BatchSize q.Num
new q max_size min_size growth =
    let dynamic = grows_from q max_size min_size growth in
    record {
      max_batch_size = max_size;
      batch_size_growth_factor = growth;
      min_batch_size = min_size;
      is_dynamic = dynamic;
      current_batch_size = if dynamic then min_size else max_size;
    }

-- `BatchSize.update`
unfoldable pub update : (q : Quantity) → BatchSize q.Num → BatchSize q.Num
update q b =
    if b.is_dynamic
    then record b {
      current_batch_size =
          least q (q.mul b.current_batch_size b.batch_size_growth_factor) b.max_batch_size;
    }
    else b

-- The Python ints that are not negative.
abbrev pub natural : Quantity
natural = record { Num = ℕ; of_count = λ n. n; lt = ltb; mul = λ a b. a * b }
