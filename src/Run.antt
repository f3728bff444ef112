-- ===== src/Run.antt =====
-- The outcome of an operation: a result, an error, a panic, or the fuel of a loop used up.
pub mod Ends
use skl.Prelude.{ℕ}

-- `enum Error`; `E` is the allocator's own error type
pub data Error (E : Type 0) : Type 0 where
  arena : E → Error E
  value_too_large : ℕ → Error E
  key_too_large : ℕ → Error E
  entry_too_large : ℕ → Error E
  arena_too_small : Error E

-- `Either<E, Error>`: an error of the caller's closure, or the map's
pub data Failure (F E : Type 0) : Type 0 where
  left : F → Failure F E
  right : Error E → Failure F E

pub data Run (S F E B : Type 0) : Type 0 where
  ok : B → S → Run S F E B
  err : Failure F E → S → Run S F E B
  panicked : Run S F E B
  out_of_fuel : Run S F E B

abbrev pub M : (S F E B : Type 0) → Type 0
M S F E B = S → Run S F E B

module _ {S F E : Type 0} where
  abbrev pub pure : {B : Type 0} → B → M S F E B
  pure = ok

  module _ {B C : Type 0} where
    abbrev pub and_then : Run S F E B → (B → M S F E C) → Run S F E C
    and_then (ok b s) k = k b s
    and_then (err e s) k = err e s
    and_then panicked k = panicked
    and_then out_of_fuel k = out_of_fuel

    infixl 5 ◌>>=◌ ◌>>◌
    abbrev pub ◌>>=◌ : M S F E B → (B → M S F E C) → M S F E C
    m >>= k = λ s. and_then (m s) k

    abbrev pub ◌>>◌ : M S F E B → M S F E C → M S F E C
    m >> n = m >>= λ _. n

  -- what runs on the state where an error leaves a scope
  abbrev pub on_err : {B : Type 0} → (S → S) → M S F E B → M S F E B
  on_err undo m s = elim (m s) [
    | ok b s' ↦ ok b s'
    | err e s' ↦ err e (undo s')
    | panicked ↦ panicked
    | out_of_fuel ↦ out_of_fuel
  ]
