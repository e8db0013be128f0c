-- ===== src/Auth/Message.antt =====
-- What the signed message says of the instance that it is for.
use Prim.Native.Char.{Char, code}
use Prim.Native.Nat.{ℕ}
use Prim.Native.String.{String, ◌++◌, [], ◌∷◌}
use text.Mathlib.TextLemmas.{nil-append, cons-append, append_assoc}
use text.Mathlib.TextEquality.{eq_iff}
use gemma_vllm_worker.Base.{
  ◌≡◌, ◌≢◌, ◌⊎◌, inl, inr, refl, sym, subst, ap, ◌∙◌, false, some, if◌then◌else◌, nat_beq, arith,
  Bool-cases, ◌==◌, string_comparable,
}
use gemma_vllm_worker.Auth.{Request, Environment, valid, message_of, full_path, verify_cp_hmac}
use gemma_vllm_worker.Auth.Window.{verify-IsAuthentic}

abbrev dot_char : Char
dot_char = "."

abbrev pub NoDot : String → Type 0
NoDot [] = Unit
NoDot (c ∷ s) = (nat_beq (code c) b'.' ≡ false) × NoDot s

-- What follows the last dot of `s`, or `cur` if there is none.
last_part : String → String → String
last_part cur [] = cur
last_part cur (c ∷ s) =
    let restarted = last_part s s in
    let goes_on = last_part cur s in if nat_beq (code c) b'.' then restarted else goes_on

last_part_none : (cur s : String) → NoDot s → last_part cur s ≡ cur
unfolding last_part
last_part_none cur [] h = refl
last_part_none cur (c ∷ s) (here, h) = rw here (last_part_none cur s h)

last_part-append : (cur a b : String) → NoDot b → last_part cur (a ++ ("." ++ b)) ≡ b
unfolding last_part
last_part-append cur [] b h =
    ap (last_part cur)
      (nil-append ("." ++ b) ∙ cons-append dot_char [] b ∙ ap (λ s. dot_char ∷ s) (nil-append b))
    ∙ last_part_none b b h
last_part-append cur (c ∷ a) b h =
    ap (last_part cur) (cons-append c a ("." ++ b)) ∙ (elim (Bool-cases (nat_beq (code c) b'.')) [
      | inl dot ↦ rw dot (last_part-append (a ++ ("." ++ b)) a b h)
      | inr other ↦ rw other (last_part-append cur a b h)
    ])

message_tail : (t m p i : String) → (before : String) × (message_of t m p i ≡ before ++ ("." ++ i))
unfolding message_of
message_tail t m p i = (t ++ ("." ++ (m ++ ("." ++ p))), (simp append_assoc))

-- Two equal messages for instance ids without dots are for the same instance, whatever the timestamps,
-- methods and paths are.
pub message_of_instance :
    (t t' m m' p p' i i' : String)
    → NoDot i
    → NoDot i'
    → message_of t m p i ≡ message_of t' m' p' i'
    → i ≡ i'
message_of_instance t t' m m' p p' i i' h h' e =
    let (a, ea) = message_tail t m p i in
    let (b, eb) = message_tail t' m' p' i' in
    sym (last_part-append "" a i h)
    ∙ ap (last_part "") (sym ea ∙ e ∙ eb)
    ∙ last_part-append "" b i' h'

-- A request that two instances with the same secret both let through by its signature, where their ids
-- have no dot, shows that the ids are equal or that the hash maps two different messages to one value.
pub verify_bound :
    (sign : String → String → String) (env env' : Environment) (now now' : ℕ) (r : Request)
    (i i' : String)
    → env.secret ≡ env'.secret
    → env.instance_id ≡ some i
    → env'.instance_id ≡ some i'
    → NoDot i
    → NoDot i'
    → verify_cp_hmac sign env now r ≡ valid
    → verify_cp_hmac sign env' now' r ≡ valid
    → (i ≡ i')
      ⊎ ((secret : String) × (m : String) × (m' : String) × (m ≢ m')
          × (sign secret m ≡ sign secret m'))
verify_bound sign env env' now now' r i i' same_secret e e' h h' v v' =
    let a = verify-IsAuthentic sign env now r v in
    let b = verify-IsAuthentic sign env' now' r v' in
    let m = message_of a.timestamp r.method (full_path r) a.instance_id in
    let m' = message_of b.timestamp r.method (full_path r) b.instance_id in
    let ia : a.instance_id ≡ i = some_eq (sym a.instance_set ∙ e) in
    let ib : b.instance_id ≡ i' = some_eq (sym b.instance_set ∙ e') in
    let ss : b.secret ≡ a.secret = some_eq (sym b.secret_set ∙ sym same_secret ∙ a.secret_set) in
    let sg : a.signature ≡ b.signature = some_eq (sym a.signature_sent ∙ b.signature_sent) in
    elim (Bool-cases (m == m')) [
      | inl equal ↦ inl (
          sym ia
          ∙ message_of_instance a.timestamp b.timestamp r.method r.method (full_path r)
              (full_path r) a.instance_id b.instance_id (subst NoDot (sym ia) h)
              (subst NoDot (sym ib) h') ((eq_iff m m').0 equal)
          ∙ ib)
      | inr differ ↦ inr (
        a.secret,
        m,
        m',
        (λ q. ground (arith, eq_iff m m')),
        sym a.signed ∙ sg ∙ b.signed ∙ ap (λ s. sign s m') ss,
      )
    ]
  where
    some_eq : {x y : String} → some x ≡ some y → x ≡ y
    some_eq p = cc
