-- ===== src/Batch/Natural.antt =====
-- The sizes that a `BatchSize` takes over ints that are not negative, in closed form.
use Prim.Native.Nat.{◌^◌}
use native.Mathlib.Decide.{dec_le}
use native.Mathlib.Nat.{pow-suc, pow-zero, mul_assoc, mul_comm}
use gemma_vllm_worker.Base.{ℕ, zero, suc, ◌*◌, ◌≤◌, ◌<◌, min, ◌≡◌, true, arith, ltb, ap, ◌∙◌}
use gemma_vllm_worker.Batch.{IsQuantity, BatchSize, new, update, natural, le, least}
use gemma_vllm_worker.Batch.Growth.{updates}

le-mul : (a g : ℕ) → 1 ≤ g → a ≤ a * g
le-mul a zero h = absurd (omega arith)
le-mul a (suc g) h = grind arith

natural_grows : (a g : ℕ) → ltb 1 g ≡ true → le natural 1 a ≡ true → le natural a (a * g) ≡ true
natural_grows a g h k = ground (arith, le-mul a g)

pub natural-IsQuantity : IsQuantity natural
natural-IsQuantity = record {
  le_trans = λ a b c h k. ground arith;
  le_of_lt = λ a b h. ground arith;
  le_refl = λ a. ground arith;
  grows = natural_grows;
}

abbrev sized : ℕ → ℕ → ℕ → ℕ → BatchSize ℕ
sized m s g c = record {
  max_batch_size = m;
  batch_size_growth_factor = g;
  min_batch_size = s;
  is_dynamic = true;
  current_batch_size = c;
}

least-min : (m g p : ℕ) → 1 ≤ g → least natural (min p m * g) m ≡ min (p * g) m
least-min m g p h = elim (dec_le p m) [
  | yes below ↦ let e : min p m ≡ p = omega arith in rw e (ground arith)
  | no above ↦ let e : min p m ≡ m = omega arith in rw e (ground (arith, le-mul m g, le-mul p g))
]

update_sized :
    (m s g p : ℕ) → 1 ≤ g → update natural (sized m s g (min p m)) ≡ sized m s g (min (p * g) m)
unfolding update
update_sized m s g p h = ap (sized m s g) (least-min m g p h)

updates_sized :
    (n m s g p : ℕ)
    → 1 ≤ g
    → (updates natural n (sized m s g (min p m))).current_batch_size ≡ min (p * g ^ n) m
unfolding updates
updates_sized zero m s g p h = ground (arith, pow-zero g)
updates_sized (suc n) m s g p h =
    ap (λ b. (updates natural n b).current_batch_size) (update_sized m s g p h)
    ∙ updates_sized n m s g (p * g) h
    ∙ ap (λ t. min t m)
        (rw pow-suc (rw (mul_assoc p g (g ^ n)) (ap (λ t. p * t) (mul_comm g (g ^ n)))))

new_dynamic : (m s g : ℕ) → 1 < g → 1 ≤ s → s < m → new natural m s g ≡ sized m s g (min s m)
unfolding new
new_dynamic m s g hg hs hm = ground arith

-- Over natural numbers with a factor above one and a minimum of at least one below the maximum, the
-- size after n updates is the minimum times the n-th power of the factor, cut at the maximum.
pub updates_lem :
    (n m s g : ℕ)
    → 1 < g
    → 1 ≤ s
    → s < m
    → (updates natural n (new natural m s g)).current_batch_size ≡ min (s * g ^ n) m
updates_lem n m s g hg hs hm =
    rw (new_dynamic m s g hg hs hm) (updates_sized n m s g s (omega arith))

new_positive : (m s g : ℕ) → 1 ≤ m → 1 ≤ (new natural m s g).current_batch_size
unfolding new
new_positive m s g h = ground arith
