-- ===== src/Base/Events.antt =====
-- What a consumer sees of an async generator: the items that it yields, and then that it returns or
-- that it raises an exception with a message.
use Prim.Native.String.{String}
use mathlib.Core.Path.{◌≡◌, refl, ap}
use mathlib.Core.List.{List, [], ◌∷◌, ◌++◌}

pub data Events (A : Type 0) : Type 0 where
  done : Events A
  raise : String → Events A
  item : A → Events A → Events A

module _ {A : Type 0} where
  abbrev pub items : Events A → List A
  items done = []
  items (raise m) = []
  items (item a es) = a ∷ items es

  -- Items, then the rest of a generator.
  abbrev pub prepend : List A → Events A → Events A
  prepend [] es = es
  prepend (a ∷ xs) es = item a (prepend xs es)

  -- `yield` in the `except` clause around the whole generator.
  abbrev pub catch : Events A → (String → Events A) → Events A
  catch done h = done
  catch (raise m) h = h m
  catch (item a es) h = item a (catch es h)

  -- The generator returned, with no exception.
  abbrev pub IsComplete : Events A → Type 0
  IsComplete done = Unit
  IsComplete (raise m) = ⊥
  IsComplete (item a es) = IsComplete es

  pub items-prepend : (xs : List A) (es : Events A) → items (prepend xs es) ≡ xs ++ items es
  items-prepend [] es = refl
  items-prepend (a ∷ xs) es = ap (λ t. a ∷ t) (items-prepend xs es)
