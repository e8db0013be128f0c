-- ===== src/Batch/Growth.antt =====
-- The sizes that a `BatchSize` takes, over any numbers.
use gemma_vllm_worker.Base.{ℕ, zero, suc, ◌≡◌, true, false, arith, refl}
use gemma_vllm_worker.Base.{inl, inr, Bool-cases}
use gemma_vllm_worker.Batch.{Quantity, IsQuantity, BatchSize, new, update, le, least, grows_from}

-- The object after a number of updates.
unfoldable pub updates : (q : Quantity) → ℕ → BatchSize q.Num → BatchSize q.Num
updates q zero b = b
updates q (suc n) b = updates q n (update q b)

module _ (q : Quantity) (laws : IsQuantity q) where
  -- What the constructor establishes and `update` keeps.
  pub record IsSized (b : BatchSize q.Num) : Type 0 where
    pub below_max : le q b.current_batch_size b.max_batch_size ≡ true
    pub settled : b.is_dynamic ≡ false → b.current_batch_size ≡ b.max_batch_size
    pub growth_above_one :
        b.is_dynamic ≡ true → q.lt (q.of_count 1) b.batch_size_growth_factor ≡ true
    pub min_at_least_one : b.is_dynamic ≡ true → le q (q.of_count 1) b.min_batch_size ≡ true
    pub above_min : b.is_dynamic ≡ true → le q b.min_batch_size b.current_batch_size ≡ true

  pub new-IsSized : (m s g : q.Num) → IsSized (new q m s g)
  unfolding new
  new-IsSized m s g = elim (Bool-cases (grows_from q m s g)) [
    | inl yes_dynamic ↦ record {
      below_max = rw yes_dynamic (laws.le_of_lt s m (ground arith));
      settled = λ h. ground arith;
      growth_above_one = λ h. ground arith;
      min_at_least_one = λ h. ground arith;
      above_min = λ h. rw yes_dynamic (laws.le_refl s);
    }
    | inr static ↦ record {
      below_max = rw static (laws.le_refl m);
      settled = λ h. rw static;
      growth_above_one = λ h. ground arith;
      min_at_least_one = λ h. ground arith;
      above_min = λ h. ground arith;
    }
  ]

  least_at_least : (a b c : q.Num) → le q c a ≡ true → le q c b ≡ true → le q c (least q a b) ≡ true
  least_at_least a b c h k = ground arith

  least-le : (a b : q.Num) → le q (least q a b) b ≡ true
  least-le a b = ground (arith, laws.le_refl b)

  -- A dynamic size neither shrinks below what it was nor passes the maximum.
  update-grows :
      (b : BatchSize q.Num)
      → IsSized b
      → le q b.current_batch_size (update q b).current_batch_size ≡ true
  unfolding update
  update-grows b h = elim (Bool-cases b.is_dynamic) [
    | inl d ↦ rw d (
        least_at_least _ _ b.current_batch_size
          (laws.grows _ _ (h.growth_above_one d)
            (laws.le_trans _ _ _ (h.min_at_least_one d) (h.above_min d)))
          h.below_max)
    | inr s ↦ rw s (laws.le_refl _)
  ]

  pub update-IsSized : (b : BatchSize q.Num) → IsSized b → IsSized (update q b)
  unfolding update
  update-IsSized b h = elim (Bool-cases b.is_dynamic) [
    | inl d ↦ record {
      below_max = rw d (least-le _ _);
      settled = λ e. ground arith;
      growth_above_one = λ e. ground (arith, h.growth_above_one d);
      min_at_least_one = λ e. ground (arith, h.min_at_least_one d);
      above_min = λ e.
          let kept =
            laws.le_trans b.min_batch_size b.current_batch_size (update q b).current_batch_size
              (h.above_min d) (update-grows b h) in
          ground arith;
    }
    | inr s ↦ record {
      below_max = rw s h.below_max;
      settled = λ e. rw s (h.settled s);
      growth_above_one = λ e. ground arith;
      min_at_least_one = λ e. ground arith;
      above_min = λ e. ground arith;
    }
  ]

  pub updates-IsSized : (n : ℕ) (b : BatchSize q.Num) → IsSized b → IsSized (updates q n b)
  unfolding updates
  updates-IsSized zero b h = h
  updates-IsSized (suc n) b h = updates-IsSized n (update q b) (update-IsSized b h)

  updates_succ : (n : ℕ) (b : BatchSize q.Num) → updates q (suc n) b ≡ update q (updates q n b)
  unfolding updates
  updates_succ zero b = refl
  updates_succ (suc n) b = updates_succ n (update q b)

  -- Over numbers that are not NaN, the size of every batch, after any number of updates of a new
  -- object, is at most the maximum, the next size is not smaller, and a dynamic object's size is at
  -- least the minimum.
  pub updates_bounds :
      (n : ℕ) (m s g : q.Num)
      → (le q
            (updates q n (new q m s g)).current_batch_size
            (updates q n (new q m s g)).max_batch_size
          ≡ true)
        × (le q
              (updates q n (new q m s g)).current_batch_size
              (updates q (suc n) (new q m s g)).current_batch_size
            ≡ true)
        × ((updates q n (new q m s g)).is_dynamic ≡ true
            → le q
                (updates q n (new q m s g)).min_batch_size
                (updates q n (new q m s g)).current_batch_size
              ≡ true)
  updates_bounds n m s g =
      let h = updates-IsSized n (new q m s g) (new-IsSized m s g) in
      (h.below_max, rw (updates_succ n (new q m s g)) (update-grows _ h), h.above_min)
