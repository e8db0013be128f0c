-- ===== src/Base/Equality.antt =====
-- One `==` for the numbers and the texts.
use Prim.Native.Nat.{ℕ, compare, Ordering}
use Prim.Native.String.{String}
use mathlib.Core.Path.{◌≡◌}
use mathlib.Core.Logic.{◌↔◌}
use mathlib.Core.Bool.{Bool, true, false, ◌||◌}
use mathlib.Core.List.{List, [], ◌∷◌}
use native.Mathlib.Omega.{arith}
use text.Mathlib.Text.{◌==◌ as str_eq}
use text.Mathlib.TextEquality.{eq_iff}

abbrev pub nat_beq : ℕ → ℕ → Bool
nat_beq a b = elim (compare a b) [ Ordering.eq ↦ true | _ ↦ false ]

pub nat_beq_iff : (a b : ℕ) → (nat_beq a b ≡ true) ↔ (a ≡ b)
nat_beq_iff a b = ground arith

-- The types whose values the source compares by `==`.
pub record Comparable {ℓ} (K : Type ℓ) : Type ℓ where
  pub equals : K → K → Bool
  pub equals_iff : (k j : K) → (equals k j ≡ true) ↔ (k ≡ j)

instance abbrev pub string_comparable : Comparable String
string_comparable = record { equals = str_eq; equals_iff = eq_iff }

instance abbrev pub nat_comparable : Comparable ℕ
nat_comparable = record { equals = nat_beq; equals_iff = nat_beq_iff }

module _ {ℓ} {K : Type ℓ} ⦃c : Comparable K⦄ where
  infix 50 ◌==◌
  abbrev pub ◌==◌ : K → K → Bool
  ◌==◌ k j = c.equals k j

  -- Python's `x in xs`.
  abbrev pub elem : K → List K → Bool
  elem k [] = false
  elem k (j ∷ js) = k == j || elem k js
