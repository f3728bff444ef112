-- ===== src/Run/Ends.antt =====
-- How an operation ends: with a result of which `P` holds, or with an error, of whose state `Q`
-- holds; never by a panic, nor for want of fuel.
use skl.Prelude.{Bool, true, false, if◌then◌else◌}
use skl.Run.{Run, Failure, ok, err, panicked, out_of_fuel, M, and_then}

module _ {S F E : Type 0} where
  abbrev pub Ends :
      {B : Type 0} → (B → S → Type 0) → (Failure F E → S → Type 0) → Run S F E B → Type 0
  Ends P Q (ok b s) = P b s
  Ends P Q (err e s) = Q e s
  Ends P Q panicked = ⊥
  Ends P Q out_of_fuel = ⊥

  module _ {B : Type 0} (P : B → S → Type 0) (Q : Failure F E → S → Type 0) where
    pub Ends-and_then :
        {C : Type 0} (P' : C → S → Type 0) (r : Run S F E B) (k : B → M S F E C)
        → Ends P Q r
        → ((b : B) (s : S) → P b s → Ends P' Q (k b s))
        → Ends P' Q (and_then r k)
    Ends-and_then P' (ok b s) k h rest = rest b s h
    Ends-and_then P' (err e s) k h rest = h
    Ends-and_then P' panicked k h rest = h
    Ends-and_then P' out_of_fuel k h rest = h

    -- An error passes through what is undone on the way out.
    pub Ends-undone :
        (undo : S → S) (r : Run S F E B)
        → Ends P Q r
        → ((e : Failure F E) (s : S) → Q e s → Q e (undo s))
        → Ends P Q (elim r as (λ _. Run S F E B) [
          | ok b s' ↦ ok b s'
          | err e s' ↦ err e (undo s')
          | panicked ↦ panicked
          | out_of_fuel ↦ out_of_fuel
        ])
    Ends-undone undo (ok b s) h k = h
    Ends-undone undo (err e s) h k = k e s h
    Ends-undone undo panicked h k = h
    Ends-undone undo out_of_fuel h k = h

    pub Ends-imp :
        (P' : B → S → Type 0) (Q' : Failure F E → S → Type 0) (r : Run S F E B)
        → Ends P Q r
        → ((b : B) (s : S) → P b s → P' b s)
        → ((e : Failure F E) (s : S) → Q e s → Q' e s)
        → Ends P' Q' r
    Ends-imp P' Q' (ok b s) h p q = p b s h
    Ends-imp P' Q' (err e s) h p q = q e s h
    Ends-imp P' Q' panicked h p q = h
    Ends-imp P' Q' out_of_fuel h p q = h

    pub Ends-if :
        (b : Bool) (f g : M S F E B) (s : S)
        → Ends P Q (f s)
        → Ends P Q (g s)
        → Ends P Q ((if b then f else g) s)
    Ends-if true f g s p q = p
    Ends-if false f g s p q = q

    pub Ends-either :
        (b : Bool) (p q : Run S F E B) → Ends P Q p → Ends P Q q → Ends P Q (if b then p else q)
    Ends-either true p q h k = h
    Ends-either false p q h k = k
