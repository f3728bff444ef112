-- ===== src/Api/Calls.antt =====
-- Calls of `insert` one after another: what the map holds after them.
use skl.Prelude.{
  ℕ, suc, ◌+◌, ◌≤◌, ◌<◌, ◌^◌, ◌≡◌, refl, sym, subst, Bool, Option, some, List, [], ◌∷◌, eq, arith,
  length, ◌⊎◌, inl, inr,
}
use skl.Compare.{Bytes, Comparator, Trailer}
use skl.Node.{remove}
use skl.Spec.{Item}
use skl.Options.{Options}
use skl.Run.{M, ok, and_then}
use skl.Run.Ends.{Ends, Ends-and_then, Ends-imp}
use skl.Arena.{Arena}
use skl.Arena.Laws.{IsArena}
use skl.SkipMap.{SkipMap}
use skl.SkipMap.Contents.{contents}
use skl.Update.New.{height_bounds}
use skl.Create.Ready.{IsReady}
use skl.Api.{insert}
use skl.Api.Insertion.{insert-Ends}
use skl.Api.Series.{IsAbsent, Holds, Holds-absent, still-Holds, grown-Holds}

-- what a call of `insert` is given, with its random number
pub record Put (T : Type 0) : Type 0 where
  pub rnd : ℕ
  pub trailer : T
  pub key : Bytes
  pub value : Bytes

module _ {T : Type 0} ⦃t : Trailer T⦄ where
  abbrev pub put_item : Put T → Item
  put_item p = record { key = p.key; version = t.version p.trailer; value = some p.value }

  -- the collection after the calls
  abbrev pub added : List (Put T) → List Item → List Item
  added [] es = es
  added (p ∷ ps) es = added ps (put_item p ∷ es)

  -- Each call is for a key and a version that are not there by then, with a key and a value that are
  -- not too long.
  abbrev pub AreNew : Comparator → List (Put T) → List Item → Type 0
  AreNew c [] es = Unit {0}
  AreNew c (p ∷ ps) es =
      (length p.key < 2 ^ 27)
      × (length p.value < remove)
      × IsAbsent c (t.version p.trailer) p.key es
      × AreNew c ps (put_item p ∷ es)

  -- It holds of the collection before one of the calls.
  abbrev pub SomeBefore : (List Item → Type 0) → List (Put T) → List Item → Type 0
  SomeBefore P [] es = ⊥
  SomeBefore P (p ∷ ps) es = P es ⊎ SomeBefore P ps (put_item p ∷ es)

module _ {A T E F : Type 0} ⦃t : Trailer T⦄ (ar : Arena A E) (fuel : ℕ) (meanwhile : Option ℕ)
    (probabilities : ℕ → ℕ) where
  -- the calls one after another, up to the first that fails
  unfoldable pub insert_all : List (Put T) → M (SkipMap A T) F E (Unit {0})
  insert_all [] s = ok tt s
  insert_all (p ∷ ps) s =
      and_then (insert ar fuel meanwhile probabilities p.rnd p.trailer p.key p.value s)
        (λ _. insert_all ps)

module _ {A T E : Type 0} (F : Type 0) ⦃t : Trailer T⦄ (free : A → ℕ → Bool) (ar : Arena A E)
    (laws : IsArena free ar) (single : t.size_of ≡ 0 → (a b : T) → a ≡ b) (fuel : ℕ)
    (meanwhile : Option ℕ) (probabilities : ℕ → ℕ) (c : Comparator)
    (exact : (x y : Bytes) → c.cmp x y ≡ eq → x ≡ y) (o : Options) where
  insert-Holds :
      (p : Put T) (es : List Item) (s : SkipMap A T)
      → Holds free c o es s
      → length p.key < 2 ^ 27
      → length p.value < remove
      → IsAbsent c (t.version p.trailer) p.key es
      → length es ≤ fuel
      → Ends
          (λ r s'. Holds free c o (put_item p ∷ es) s')
          (λ e s'. Holds free c o es s')
          (insert {F = F} ar (suc fuel) meanwhile probabilities p.rnd p.trailer p.key p.value s)
  insert-Holds p es s holds key_lt value_lt absent enough =
      let reads = s.opts.max_height + length (holds.levels 0) + 1 in
      Ends-imp _ _ (λ r s'. Holds free c o (put_item p ∷ es) s') (λ e s'. Holds free c o es s')
        (insert {F = F} ar (suc fuel) meanwhile probabilities p.rnd p.trailer p.key p.value s)
        (insert-Ends F free ar laws single fuel meanwhile probabilities p.rnd p.trailer p.key
          p.value key_lt value_lt s
          (subst (λ (x : Comparator). (a b : Bytes) → x.cmp a b ≡ eq → a ≡ b) (sym holds.cmp_is)
            exact)
          holds.height _ holds.levels holds.is holds.lay
          (Holds-absent free c o es s holds (t.version p.trailer) p.key absent)
          (omega (arith, holds.size, enough)) 0 p.key reads (omega arith))
        (λ r s' h.
          grown-Holds free c o es s holds (put_item p) absent s' h.1.1.0 _
            (height_bounds probabilities p.rnd s
              (omega (arith, holds.is.height_pos, holds.is.height_le))).0
            h.1.1.3 h.1.1.1 h.1.1.2)
        (λ e s' h. still-Holds free c o es s holds s' h.1 h.2 h.3)

  pub insert_all-Holds :
      (ps : List (Put T)) (es : List Item) (s : SkipMap A T)
      → Holds free c o es s
      → AreNew c ps es
      → length es + length ps ≤ fuel + 1
      → Ends
          (λ r s'. Holds free c o (added ps es) s')
          (λ e s'. SomeBefore (λ fs. Holds free c o fs s') ps es)
          (insert_all {F = F} ar (suc fuel) meanwhile probabilities ps s)
  unfolding insert_all
  insert_all-Holds [] es s holds new enough = holds
  insert_all-Holds (p ∷ ps) es s holds new enough =
      Ends-and_then (λ r s'. Holds free c o (put_item p ∷ es) s')
        (λ e s'. SomeBefore (λ fs. Holds free c o fs s') (p ∷ ps) es)
        (λ r s'. Holds free c o (added ps (put_item p ∷ es)) s')
        (insert {F = F} ar (suc fuel) meanwhile probabilities p.rnd p.trailer p.key p.value s)
        (λ _. insert_all ar (suc fuel) meanwhile probabilities ps)
        (Ends-imp (λ r s'. Holds free c o (put_item p ∷ es) s') (λ e s'. Holds free c o es s')
          (λ r s'. Holds free c o (put_item p ∷ es) s')
          (λ e s'. SomeBefore (λ fs. Holds free c o fs s') (p ∷ ps) es)
          (insert {F = F} ar (suc fuel) meanwhile probabilities p.rnd p.trailer p.key p.value s)
          (insert-Holds p es s holds new.0 new.1 new.2 (omega (arith, enough))) (λ r s' h. h)
          (λ e s' h. inl h))
        (λ r s' h.
          Ends-imp (λ r s'. Holds free c o (added ps (put_item p ∷ es)) s')
            (λ e s'. SomeBefore (λ fs. Holds free c o fs s') ps (put_item p ∷ es))
            (λ r s'. Holds free c o (added ps (put_item p ∷ es)) s')
            (λ e s'. SomeBefore (λ fs. Holds free c o fs s') (p ∷ ps) es)
            (insert_all {F = F} ar (suc fuel) meanwhile probabilities ps s')
            (insert_all-Holds ps (put_item p ∷ es) s' h new.3 (omega (arith, enough)))
            (λ r s'' g. g) (λ e s'' g. inr g))

  pub ready-Holds :
      (s : SkipMap A T) → IsReady free s → s.cmp ≡ c → s.opts ≡ o → Holds free c o [] s
  unfolding contents
  ready-Holds s ready cmp_is opts_is = record {
    height = λ _. s.opts.max_height;
    head = s.head;
    tail = s.tail;
    nodes = [];
    levels = λ _. [];
    is = ready.0;
    lay = ready.1;
    cmp_is = cmp_is;
    opts_is = opts_is;
    same = λ v key. refl;
    members = tt;
    size = refl;
  }
