-- ===== src/Base/Number.antt =====
-- Python's `int(s)`: white space around, a sign, decimal digits with single underscores between them, at
-- most 4300 of them. Digits of other scripts than ASCII are not read.
use Prim.Native.Char.{Char, code}
use Prim.Native.Nat.{ℕ, ◌+◌, ◌-◌, ◌*◌}
use Prim.Native.String.{String, [], ◌∷◌}
use mathlib.Core.Bool.{Bool, true, false, ◌&&◌}
use mathlib.Core.Option.{Option, none, some}
use gemma_vllm_worker.Base.Tests.{leb, if◌then◌else◌}
use gemma_vllm_worker.Base.Equality.{nat_beq}
use gemma_vllm_worker.Base.Int.{ℤ, pos, negate}
use gemma_vllm_worker.Base.Text.{strip}

abbrev is_digit : Char → Bool
is_digit c = leb b'0' (code c) && leb (code c) b'9'

-- The digits from here on: the value and the number of those read, and whether the last was a digit.
digits_from : ℕ → ℕ → Bool → String → Option ℕ
digits_from n read after_digit [] = if after_digit && leb read 4300 then some n else none
digits_from n read after_digit (c ∷ s) =
    let next = digits_from (n * 10 + (code c - b'0')) (read + 1) true s in
    let joined = digits_from n read false s in
    if is_digit c then next else if nat_beq (code c) b'_' && after_digit then joined else none

abbrev map_option : {A B : Type 0} → (A → B) → Option A → Option B
map_option f none = none
map_option f (some a) = some (f a)

signed : String → Option ℤ
unfolding digits_from
signed [] = none
signed (c ∷ s) =
    if nat_beq (code c) b'-'
    then map_option (λ n. negate (pos n)) (digits_from 0 0 false s)
    else if nat_beq (code c) b'+'
    then map_option pos (digits_from 0 0 false s)
    else map_option pos (digits_from 0 0 false (c ∷ s))

unfoldable pub parse_int : String → Option ℤ
unfolding signed strip
parse_int s = signed (strip s)
