-- ===== src/Api/Fresh.antt =====
-- A map from its construction over a series of insertions to what its readers get.
use mathlib.Core.Option
use skl.Prelude.{
  ℕ, suc, ◌+◌, ◌≤◌, ◌<◌, ◌≡◌, ap, ◌∙◌, Bool, false, Option, some, none, List, [], ◌∷◌, eq, arith,
  length, inl, inr,
}
use skl.Compare.{Bytes, Comparator, Trailer}
use skl.Compare.Laws.{IsOrder}
use skl.Node.{Memory}
use skl.Spec.{Item, latest, lookup}
use skl.Meta.{Meta}
use skl.Options.{Options}
use skl.Run.{and_then}
use skl.Run.Ends.{Ends, Ends-and_then, Ends-imp}
use skl.Arena.{Arena}
use skl.Arena.Laws.{IsArena}
use skl.SkipMap.{SkipMap}
use skl.SkipMap.Get.{get}
use skl.SkipMap.Contents.{contents, value_of, get-lookup}
use skl.Create.{new_in}
use skl.Create.Ends.{IsOwn}
use skl.Create.Ready.{IsReady}
use skl.Create.Start.{new_in-IsReady}
use skl.Api.Series.{Holds}
use skl.Api.Calls.{
  Put, added, AreNew, SomeBefore, insert_all, put_item, insert_all-Holds, ready-Holds,
}

module _ {A T E : Type 0} (F : Type 0) ⦃t : Trailer T⦄ (free : A → ℕ → Bool) (ar : Arena A E)
    (laws : IsArena free ar) (single : t.size_of ≡ 0 → (a b : T) → a ≡ b) (fuel : ℕ)
    (meanwhile : Option ℕ) (probabilities : ℕ → ℕ) (c : Comparator)
    (exact : (x y : Bytes) → c.cmp x y ≡ eq → x ≡ y) (o : Options) where
  Holds-get :
      (es : List Item) (s : SkipMap A T)
      → Holds free c o es s
      → (v : ℕ) (key : Bytes) (reads : ℕ) → o.max_height + length es ≤ reads
      → Option.map (value_of s v key) (get s reads v key) ≡ some (lookup c v key es)
  unfolding lookup
  Holds-get es s holds v key reads b =
      let found : latest s.cmp v key (contents s (holds.levels 0)) ≡ latest c v key es =
        holds.same v key ∙ ap (λ (x : Comparator). latest x v key es) holds.cmp_is in
      let levels_le = ap (λ (x : Options). x.max_height) holds.opts_is in
      get-lookup s v key reads holds.is
        (omega (arith, holds.size, holds.is.height_le, levels_le, b))
      ∙ ap
          (λ (r : Option Item).
            some (elim r as (λ _. Option Bytes) [ none ↦ none | some e ↦ e.value ]))
          found

  length-added : (ps : List (Put T)) (es : List Item) → length (added ps es) ≡ length es + length ps
  length-added [] es = omega arith
  length-added (p ∷ ps) es = omega (arith, length-added ps (put_item p ∷ es))

  -- what every reader gets of a map, in a collection
  abbrev Gets : (v' : ℕ) (key' : Bytes) (reads : ℕ) → SkipMap A T → List Item → Type 0
  Gets v' key' reads s es =
      Option.map (value_of s v' key') (get s reads v' key') ≡ some (lookup c v' key' es)

  some-Gets :
      (v' : ℕ) (key' : Bytes) (reads : ℕ) (s : SkipMap A T) (ps : List (Put T)) (es : List Item)
      → o.max_height + (length es + length ps) ≤ reads
      → SomeBefore (λ fs. Holds free c o fs s) ps es
      → SomeBefore (Gets v' key' reads s) ps es
  some-Gets v' key' reads s [] es b h = h
  some-Gets v' key' reads s (p ∷ ps) es b (inl h) =
      inl (Holds-get es s h v' key' reads (omega (arith, b)))
  some-Gets v' key' reads s (p ∷ ps) es b (inr h) =
      inr (some-Gets v' key' reads s ps (put_item p ∷ es) (omega (arith, b)) h)

  -- Let the arena hand out only free memory, the map be as `new_in` and `clear` leave it, and its
  -- comparator take only equal keys for equal. Let a series of insertions follow, each of a key shorter
  -- than 2^27 bytes with a value shorter than 2^32 - 1, and each of a key and a version that no earlier
  -- one had. Then, with fuel for them, this ends without a panic, whatever the arena answers: where all
  -- calls succeed, every reader, of whichever key and version, gets what the lookup gives in the
  -- collection of the entries inserted; where one fails, every reader gets what it gives in the
  -- collection before one of the calls.
  pub insert_all-lookup :
      (ps : List (Put T)) (s : SkipMap A T)
      → IsReady free s
      → s.cmp ≡ c
      → s.opts ≡ o
      → AreNew c ps []
      → length ps ≤ fuel + 1
      → (v' : ℕ) (key' : Bytes) (reads : ℕ) → o.max_height + length ps ≤ reads
      → Ends
          (λ r s'. Gets v' key' reads s' (added ps []))
          (λ e s'. SomeBefore (Gets v' key' reads s') ps [])
          (insert_all {F = F} ar (suc fuel) meanwhile probabilities ps s)
  insert_all-lookup ps s ready cmp_is opts_is new enough v' key' reads b =
      Ends-imp (λ r s'. Holds free c o (added ps []) s')
        (λ e s'. SomeBefore (λ fs. Holds free c o fs s') ps [])
        (λ r s'. Gets v' key' reads s' (added ps []))
        (λ e s'. SomeBefore (Gets v' key' reads s') ps [])
        (insert_all {F = F} ar (suc fuel) meanwhile probabilities ps s)
        (insert_all-Holds F free ar laws single fuel meanwhile probabilities c exact o ps [] s
          (ready-Holds F free ar laws single fuel meanwhile probabilities c exact o s ready cmp_is
            opts_is)
          new (omega (arith, enough)))
        (λ r s' holds.
          Holds-get (added ps []) s' holds v' key' reads (omega (arith, length-added ps [], b)))
        (λ e s' h. some-Gets v' key' reads s' ps [] (omega (arith, b)) h)

  -- Under the conditions of `new_in-IsReady` and, for the comparator and the calls, of
  -- `insert_all-lookup`, `new_in` followed by the series of insertions ends without a panic. Where all
  -- of it succeeds, every reader gets what the lookup gives in the collection of the entries inserted.
  pub new_in-insert_all :
      (ps : List (Put T)) (a : A) (mem : Memory T) (stored : ℕ → Meta)
      → ar.read_only a ≡ false
      → free a 0 ≡ false
      → IsOrder c.cmp
      → 1 ≤ o.max_height
      → o.max_height < 32
      → AreNew c ps []
      → length ps ≤ fuel + 1
      → (v' : ℕ) (key' : Bytes) (reads : ℕ) → o.max_height + length ps ≤ reads
      → Ends
          (λ r s'. Gets v' key' reads s' (added ps []))
          (λ e s'. Unit {0})
          (and_then
            (new_in ar a mem stored c o)
            (λ _. insert_all {F = F} ar (suc fuel) meanwhile probabilities ps))
  new_in-insert_all ps a mem stored writable held ordered low high new enough v' key' reads b =
      Ends-and_then (λ r s. IsReady free s × (s.cmp ≡ c) × (s.opts ≡ o)) (λ e s'. Unit {0})
        (λ r s'. Gets v' key' reads s' (added ps [])) (new_in ar a mem stored c o)
        (λ _. insert_all {F = F} ar (suc fuel) meanwhile probabilities ps)
        (Ends-imp _ IsOwn (λ r s. IsReady free s × (s.cmp ≡ c) × (s.opts ≡ o)) (λ e s'. Unit {0})
          (new_in ar a mem stored c o)
          (new_in-IsReady F free ar laws a mem stored c o writable held ordered low high)
          (λ r s' h. (h.0, h.1, h.2)) (λ e s' h. tt))
        (λ r s h.
          Ends-imp (λ r s'. Gets v' key' reads s' (added ps []))
            (λ e s'. SomeBefore (Gets v' key' reads s') ps [])
            (λ r s'. Gets v' key' reads s' (added ps [])) (λ e s'. Unit {0})
            (insert_all {F = F} ar (suc fuel) meanwhile probabilities ps s)
            (insert_all-lookup ps s h.0 h.1 h.2 new enough v' key' reads b) (λ r s' g. g)
            (λ e s' g. tt))
