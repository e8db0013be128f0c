-- ===== src/Heartbeat/Tasks/Protocol.antt =====
-- Rules that each task follows by itself, and what they give for every interleaving of the tasks. A task
-- has a budget of what it may still do; the budgets of all tasks count against what holds of the state.
use gemma_vllm_worker.Base.{ℕ, ◌+◌, ◌≡◌, refl, sym, subst, Bool, true, List, [], ◌∷◌, ◌++◌, arith}
use gemma_vllm_worker.Heartbeat.World.{Command, Reply, World}
use gemma_vllm_worker.Heartbeat.Service.{Context}
use gemma_vllm_worker.Heartbeat.Tasks.{
  Coroutine, return, raise, look, change, await, Kind, in_loop, code_of, Registry, Answered,
  Process, State, advance, Enabled, resumed, Step, begins, answered, cancelled, lingers, effect,
  leave_failed, Reach, here, next,
}

-- The world after an answer.
abbrev pub heard : Command → Reply → World → World
heard cmd r w = record w { trace = w.trace ++ ((cmd, r) ∷ []) }

pub record Protocol : Type 1 where
  -- A change of the world with the budget before and after it, and a command that is sent.
  pub Change : World → World → ℕ → ℕ → Type 0
  pub Send : Bool → World → Command → ℕ → ℕ → Type 0
  -- What the other tasks may do meanwhile.
  pub Later : World → World → Type 0
  -- What holds, with the budgets of all tasks.
  pub Holds : World → Registry → ℕ → Type 0

pub record IsSound (P : Protocol) : Type 0 where
  pub change_refl : (w : World) (n : ℕ) → P.Change w w n n
  pub change_trans :
      (u v w : World) (a b d : ℕ) → P.Change u v a b → P.Change v w b d → P.Change u w a d
  pub later_refl : (w : World) → P.Later w w
  pub later_trans : (u v w : World) → P.Later u v → P.Later v w → P.Later u w
  pub change_later : (u v : World) (n m : ℕ) → P.Change u v n m → P.Later u v
  pub heard_later : (cmd : Command) (r : Reply) (w : World) → P.Later w (heard cmd r w)
  pub send_later :
      (loop : Bool) (u v : World) (cmd : Command) (n m : ℕ)
      → P.Send loop u cmd n m
      → P.Later u v
      → P.Send loop v cmd n m
  pub change_holds :
      (u v : World) (g : Registry) (n m k : ℕ)
      → P.Change u v n m
      → P.Holds u g (n + k)
      → P.Holds v g (m + k)
  pub send_holds :
      (loop : Bool) (w : World) (g g' : Registry) (cmd : Command) (r : Reply) (n m k : ℕ)
      → Enabled loop w
      → P.Send loop w cmd n m
      → Answered cmd r g g'
      → P.Holds w g (n + k)
      → P.Holds (heard cmd r w) g' (m + k)
  pub drop_holds : (w : World) (g : Registry) (n k : ℕ) → P.Holds w g (n + k) → P.Holds w g k

module _ (P : Protocol) where
  -- A coroutine that goes on in a world, and keeps to the rules whatever is answered and whatever the other
  -- tasks do at its awaits.
  abbrev pub Follows : Bool → World → ℕ → Coroutine → Type 0
  Follows loop w n return = Unit
  Follows loop w n (raise m) = Unit
  Follows loop w n (look f) = Follows loop w n (f w)
  Follows loop w n (change f p) = (m : ℕ) × P.Change w (f w) n m × Follows loop (f w) m p
  Follows loop w n (await cmd f) =
      (m : ℕ) × P.Send loop w cmd n m
      × ((r : Reply) (v : World) → P.Later w v → Follows loop v m (f r))

  -- A task that waits, or is done.
  abbrev pub Waits : World → ℕ → Bool → Coroutine → Type 0
  Waits w n loop return = Unit
  Waits w n loop (raise m) = Unit
  Waits w n loop (look f) = ⊥
  Waits w n loop (change f p) = ⊥
  Waits w n loop (await cmd f) = Follows loop w n (await cmd f)

  abbrev pub Budgeted : World → List Process → ℕ → Type 0
  Budgeted w [] n = n ≡ 0
  Budgeted w (t ∷ ts) n =
      (a : ℕ) × (b : ℕ) × (n ≡ a + b) × Waits w a t.of_loop t.code × Budgeted w ts b

  abbrev pub Inv : State → Type 0
  Inv s = (n : ℕ) × Budgeted s.world s.tasks n × P.Holds s.world s.registry n

  module _ (sound : IsSound P) where
    Waits-later :
        (u v : World) (n : ℕ) (loop : Bool) (p : Coroutine)
        → P.Later u v
        → Waits u n loop p
        → Waits v n loop p
    Waits-later u v n loop return l h = tt
    Waits-later u v n loop (raise m) l h = tt
    Waits-later u v n loop (await cmd f) l (m, s, k) =
        (m, sound.send_later loop u v cmd n m s l, (λ r w l'. k r w (sound.later_trans u v w l l')))
    Waits-later u v n loop (look f) l h = absurd h
    Waits-later u v n loop (change f p) l h = absurd h

    Budgeted-later :
        (u v : World) (ts : List Process) (n : ℕ) → P.Later u v → Budgeted u ts n → Budgeted v ts n
    Budgeted-later u v [] n l h = h
    Budgeted-later u v (t ∷ ts) n l (a, b, e, h, hs) =
        (a, b, e, Waits-later u v a t.of_loop t.code l h, Budgeted-later u v ts b l hs)

    advance-Waits :
        (loop : Bool) (p : Coroutine) (w : World) (n : ℕ)
        → Follows loop w n p
        → (m : ℕ) × P.Change w (advance p w).1 n m × Waits (advance p w).1 m loop (advance p w).0
    unfolding advance
    advance-Waits loop return w n h = (n, sound.change_refl w n, tt)
    advance-Waits loop (raise x) w n h = (n, sound.change_refl w n, tt)
    advance-Waits loop (look f) w n h = advance-Waits loop (f w) w n h
    advance-Waits loop (change f p) w n (a, s, h) =
        let (m, c, k) = advance-Waits loop p (f w) a h in
        (m, sound.change_trans w (f w) _ n a m s c, k)
    advance-Waits loop (await cmd f) w n h = (n, sound.change_refl w n, h)

    -- One task among the others.
    Budgeted-split :
        (w : World) (before after : List Process) (t : Process) (n : ℕ)
        → Budgeted w (before ++ (t ∷ after)) n
        → (a : ℕ) × (k : ℕ) × (n ≡ a + k)
          × Waits w a t.of_loop t.code
          × Budgeted w (before ++ after) k
    Budgeted-split w [] after t n h = h
    Budgeted-split w (x ∷ before) after t n (b, d, e, h, hs) =
        let (a, k, e', ht, rest) = Budgeted-split w before after t d hs in
        (a, b + k, omega arith, ht, (b, k, refl, h, rest))

    Budgeted-join :
        (w : World) (before after : List Process) (t : Process) (a k : ℕ)
        → Waits w a t.of_loop t.code
        → Budgeted w (before ++ after) k
        → Budgeted w (before ++ (t ∷ after)) (a + k)
    Budgeted-join w [] after t a k h hs = (a, k, refl, h, hs)
    Budgeted-join w (x ∷ before) after t a k h (b, d, e, hx, hs) =
        (b, a + d, omega arith, hx, Budgeted-join w before after t a d h hs)

    -- A task goes on from a world that is later.
    resumed-Inv :
        (loop : Bool) (p : Coroutine) (u w : World) (g : Registry) (cs : List Command)
        (before after : List Process) (n k : ℕ)
        → P.Later u w
        → Follows loop w n p
        → Budgeted u (before ++ after) k
        → P.Holds w g (n + k)
        → Inv (resumed loop (advance p w) g cs before after)
    resumed-Inv loop p u w g cs before after n k later h hs holds =
        let (m, c, waits) = advance-Waits loop p w n h in
        let v = (advance p w).1 in
        let since = sound.later_trans u w v later (sound.change_later w v n m c) in
        (
          m + k,
          Budgeted-join v before after (record { of_loop = loop; code = (advance p w).0 }) m k waits
              (Budgeted-later u v (before ++ after) k since hs),
          sound.change_holds w v g n m k c holds,
        )

    module _ (c : Context) (may_start : Kind → Bool) (may_linger : World → Command → Bool)
        (lingering : (w : World) (g : Registry) (cmd : Command) (n : ℕ)
          → may_linger w cmd ≡ true
          → P.Holds w g n
          → P.Holds w (effect cmd g) n)
        (starts : (kind : Kind) (w : World)
          → may_start kind ≡ true
          → Enabled (in_loop kind) w
          → Follows (in_loop kind) w 0 (code_of c kind)) where
      Step-Inv : (s s' : State) → Step c may_start may_linger s s' → Inv s → Inv s'
      Step-Inv s s' (begins kind may on e) (n, hs, holds) =
          let none_yet : n ≡ 0 + n = omega arith in
          subst Inv (sym e) (
            resumed-Inv (in_loop kind) (code_of c kind) s.world s.world s.registry s.abandoned []
              s.tasks 0 n (sound.later_refl s.world) (starts kind s.world may on) hs
              (subst (P.Holds s.world s.registry) none_yet holds))
      Step-Inv s s' (answered before after loop cmd f r g e on ans e') (n, hs, holds) =
          let t : Process = record { of_loop = loop; code = await cmd f } in
          let (a, k, sum, (m, sends, goes), rest) =
            Budgeted-split s.world before after t n (subst (λ ts. Budgeted s.world ts n) e hs) in
          let w = heard cmd r s.world in
          let later = sound.heard_later cmd r s.world in
          subst Inv (sym e') (
            resumed-Inv loop (f r) s.world w g (leave_failed r cmd s.abandoned) before after m k
              later (goes r w later) rest
              (sound.send_holds loop s.world s.registry g cmd r a m k on sends ans
                (subst (P.Holds s.world s.registry) sum holds)))
      Step-Inv s s' (cancelled before after t e e') (n, hs, holds) =
          let (a, k, sum, _, rest) =
            Budgeted-split s.world before after t n (subst (λ ts. Budgeted s.world ts n) e hs) in
          subst Inv (sym e') (
            k,
            rest,
            sound.drop_holds s.world s.registry a k (subst (P.Holds s.world s.registry) sum holds),
          )
      Step-Inv s s' (lingers before after cmd left may e) (n, hs, holds) =
          subst Inv (sym e) (n, hs, lingering s.world s.registry cmd n may holds)

      -- So for every interleaving.
      pub Reach-Inv : (s s' : State) → Reach c may_start may_linger s s' → Inv s → Inv s'
      Reach-Inv s s' here h = h
      Reach-Inv s s' (next {t} r st) h = Step-Inv t s' st (Reach-Inv s t r h)
