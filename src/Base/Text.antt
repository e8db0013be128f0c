-- ===== src/Base/Text.antt =====
-- Python's string operations over the native texts, character by character. Letter case is that of
-- ASCII, which is all that the source's comparisons can tell apart.
pub mod Laws
pub mod Contains
pub mod Split
use Prim.Native.Char.{Char, code}
use Prim.Native.Nat.{ℕ, zero, suc, ◌-◌}
use Prim.Native.String.{String, ◌++◌, [], ◌∷◌}
use mathlib.Core.Bool.{Bool, true, false, ◌&&◌, ◌||◌}
use mathlib.Core.List
use mathlib.Core.List.{List}
use gemma_vllm_worker.Base.Tests.{leb, if◌then◌else◌}
use gemma_vllm_worker.Base.Equality.{nat_beq}

-- The character at an index, or a default.
abbrev nth : String → ℕ → Char → Char
nth [] i d = d
nth (c ∷ s) zero d = c
nth (c ∷ s) (suc i) d = nth s i d

lower_char : Char → Char
lower_char c =
    if leb b'A' (code c) && leb (code c) b'Z'
    then nth "abcdefghijklmnopqrstuvwxyz" (code c - b'A') c
    else c

upper_char : Char → Char
upper_char c =
    if leb b'a' (code c) && leb (code c) b'z'
    then nth "ABCDEFGHIJKLMNOPQRSTUVWXYZ" (code c - b'a') c
    else c

-- `s.lower()`
unfoldable pub lower : String → String
unfolding lower_char
lower [] = []
lower (c ∷ s) = lower_char c ∷ lower s

-- `s.upper()`
unfoldable pub upper : String → String
unfolding upper_char
upper [] = []
upper (c ∷ s) = upper_char c ∷ upper s

abbrev pub is_prefix : String → String → Bool
is_prefix [] s = true
is_prefix (c ∷ p) [] = false
is_prefix (c ∷ p) (d ∷ s) = nat_beq (code c) (code d) && is_prefix p s

-- `p in s`
unfoldable pub contains : String → String → Bool
contains p [] = is_prefix p []
contains p (c ∷ s) = is_prefix p (c ∷ s) || contains p s

-- `s[n:]`
abbrev pub drop : ℕ → String → String
drop zero s = s
drop (suc n) [] = []
drop (suc n) (c ∷ s) = drop n s

-- `len(s)`
abbrev pub text_length : String → ℕ
text_length [] = 0
text_length (c ∷ s) = suc (text_length s)

abbrev pub is_empty : String → Bool
is_empty [] = true
is_empty (c ∷ s) = false

-- `str.isspace` of a character.
is_space : Char → Bool
is_space c =
    let n = code c in
    (leb 9 n && leb n 13)
    || (leb 28 n && leb n 32)
    || nat_beq n 133
    || nat_beq n 160
    || nat_beq n 5760
    || (leb 8192 n && leb n 8202)
    || nat_beq n 8232
    || nat_beq n 8233
    || nat_beq n 8239
    || nat_beq n 8287
    || nat_beq n 12288

unfoldable pub lstrip : String → String
unfolding is_space
lstrip [] = []
lstrip (c ∷ s) = let rest = lstrip s in if is_space c then rest else c ∷ s

unfoldable pub rstrip : String → String
unfolding is_space
rstrip [] = []
rstrip (c ∷ s) = let rest = rstrip s in if is_space c && is_empty rest then [] else c ∷ rest

-- `s.strip()`
unfoldable pub strip : String → String
unfolding lstrip rstrip
strip s = lstrip (rstrip s)

-- `s.removeprefix(p)`
unfoldable pub remove_prefix : String → String → String
remove_prefix p s = if is_prefix p s then drop (text_length p) s else s

-- `s.rstrip("\n\n")`: all newlines at the end go, however many.
unfoldable pub rstrip_newlines : String → String
rstrip_newlines [] = []
rstrip_newlines (c ∷ s) =
    let rest = rstrip_newlines s in if nat_beq (code c) 10 && is_empty rest then [] else c ∷ rest

-- `"".join(parts)`
abbrev pub join : List String → String
join List.[] = ""
join (List.◌∷◌ s parts) = s ++ join parts

-- `s.split(sep)` for a separator of one character: the part being read, then the rest.
unfoldable pub split_from : ℕ → String → String → List String
split_from sep cur [] = List.◌∷◌ cur List.[]
split_from sep cur (c ∷ s) =
    let closed = split_from sep "" s in
    let longer = split_from sep (cur ++ (c ∷ [])) s in
    if nat_beq (code c) sep then List.◌∷◌ cur closed else longer

unfoldable pub split : ℕ → String → List String
unfolding split_from
split sep s = split_from sep "" s

is_ascii_from : String → Bool
is_ascii_from [] = true
is_ascii_from (c ∷ s) = leb (code c) 127 && is_ascii_from s

-- `s.isascii()`
unfoldable pub is_ascii : String → Bool
unfolding is_ascii_from
is_ascii s = is_ascii_from s

-- `s.replace("-", "_")`
unfoldable pub underscores : String → String
underscores [] = []
underscores (c ∷ s) = (if nat_beq (code c) b'-' then "_" else c) ∷ underscores s
