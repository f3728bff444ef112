-- ===== src/Api/Series.antt =====
-- Insertions one after another: the map holds the entries of all of them.
use skl.Prelude.{
  ℕ, ◌≤◌, ◌≡◌, ◌≢◌, ◌⊎◌, inl, inr, refl, sym, ap, ◌∙◌, subst, Bool, true, List, [], ◌∷◌, Ordering,
  eq, arith, length, ltb,
}
use skl.Compare.{Bytes, Comparator, Trailer}
use skl.Compare.Laws.{entry_order}
use skl.Options.{Options}
use skl.Spec.{Item, latest}
use skl.SkipMap.{SkipMap, entry, order}
use skl.SkipMap.Shape.{All}
use skl.SkipMap.Invariant.{IsSkipList}
use skl.SkipMap.Contents.{item, contents}
use skl.Splice.Bracket.{All-imp, insert_at, All-zip, All-insert_at, length-insert_at}
use skl.Update.Layout.{IsLayout, WithNode, raised}
use skl.Update.Sorted.{with_node}
use skl.Update.Contents.{latest-cons, latest-insert_at}
use skl.Update.Renewed.{IsGrown, IsStill, insert_at-same, contents-same}

abbrev pub Among : Item → List Item → Type 0
Among e [] = ⊥
Among e (f ∷ fs) = (e ≡ f) ⊎ Among e fs

-- No entry of the key and the version is in the collection.
abbrev pub IsAbsent : Comparator → ℕ → Bytes → List Item → Type 0
IsAbsent c v key [] = Unit {0}
IsAbsent c v key (f ∷ fs) = (entry_order c (key, v) (f.key, f.version) ≢ eq) × IsAbsent c v key fs

Among-IsAbsent :
    (c : Comparator) (v : ℕ) (key : Bytes) (e : Item) (es : List Item)
    → IsAbsent c v key es
    → Among e es
    → entry_order c (key, v) (e.key, e.version) ≢ eq
Among-IsAbsent c v key e [] a m = elim m [ ]
Among-IsAbsent c v key e (f ∷ fs) a (inl same) =
    subst (λ (i : Item). entry_order c (key, v) (i.key, i.version) ≢ eq) (sym same) a.0
Among-IsAbsent c v key e (f ∷ fs) a (inr m) = Among-IsAbsent c v key e fs a.1 m

-- the nodes of a map: its ends, and those that have been put in
abbrev pub Known : (head tail : ℕ) → List ℕ → ℕ → Type 0
Known head tail [] p = (p ≡ head) ⊎ (p ≡ tail)
Known head tail (nd ∷ nds) p = WithNode nd (Known head tail nds) p

-- The map is well formed and laid out in its arena, and holds just the entries of the collection, as
-- far as any reader can tell.
pub record Holds {A T : Type 0} ⦃t : Trailer T⦄ (free : A → ℕ → Bool) (c : Comparator) (o : Options)
    (es : List Item) (s : SkipMap A T) : Type 0 where
  pub height : ℕ → ℕ
  pub head : ℕ
  pub tail : ℕ
  pub nodes : List ℕ
  pub levels : ℕ → List ℕ
  pub is : IsSkipList s levels
  pub lay : IsLayout (free s.arena) height (Known head tail nodes) s levels
  pub cmp_is : s.cmp ≡ c
  pub opts_is : s.opts ≡ o
  pub same :
      (v : ℕ) (key : Bytes) → latest s.cmp v key (contents s (levels 0)) ≡ latest s.cmp v key es
  pub members : All (λ p. Among (item s p) es) (levels 0)
  pub size : length (levels 0) ≡ length es

module _ {A T : Type 0} ⦃t : Trailer T⦄ (free : A → ℕ → Bool) (c : Comparator) (o : Options)
    (es : List Item) (s : SkipMap A T) (holds : Holds free c o es s) where
  pub Holds-absent :
      (v : ℕ) (key : Bytes) → IsAbsent c v key es → All (λ q. order s v key q ≢ eq) (holds.levels 0)
  unfolding order entry
  Holds-absent v key a =
      All-imp (λ p. Among (item s p) es) (λ q. order s v key q ≢ eq) (holds.levels 0)
        (λ p m.
          Among-IsAbsent s.cmp v key (item s p) es
            (subst (λ x. IsAbsent x v key es) (sym holds.cmp_is) a) m)
        holds.members

  pub still-Holds :
      (s' : SkipMap A T)
      → IsSkipList s' holds.levels
      → IsLayout
          (free s'.arena)
          holds.height
          (Known holds.head holds.tail holds.nodes)
          s'
          holds.levels
      → IsStill s s' (holds.levels 0)
      → Holds free c o es s'
  still-Holds s' is' lay' still = record {
    height = holds.height;
    head = holds.head;
    tail = holds.tail;
    nodes = holds.nodes;
    levels = holds.levels;
    is = is';
    lay = lay';
    cmp_is = still.cmp_kept ∙ holds.cmp_is;
    opts_is = still.opts_kept ∙ holds.opts_is;
    same = λ v key.
        ap (latest s'.cmp v key) (contents-same s s' (holds.levels 0) still.items_kept)
        ∙ subst
            (λ (x : Comparator). latest x v key (contents s (holds.levels 0)) ≡ latest x v key es)
            (sym still.cmp_kept) (holds.same v key);
    members =
        All-imp (λ p. (item s' p ≡ item s p) × Among (item s p) es) (λ p. Among (item s' p) es)
          (holds.levels 0) (λ p b. subst (λ i. Among i es) (sym b.0) b.1)
          (All-zip (λ p. item s' p ≡ item s p) (λ p. Among (item s p) es) (holds.levels 0)
            still.items_kept holds.members);
    size = holds.size;
  }

  module _ (e : Item) (absent : IsAbsent c e.version e.key es) (s' : SkipMap A T) (nd h : ℕ)
      (h_pos : 1 ≤ h) (grown : IsGrown s s' (holds.levels 0) nd e)
      (is' : IsSkipList s' (with_node (order s e.version e.key) nd h holds.levels))
      (lay' : IsLayout
        (free s'.arena)
        (raised nd h holds.height)
        (WithNode nd (Known holds.head holds.tail holds.nodes))
        s'
        (with_node (order s e.version e.key) nd h holds.levels)) where
    abbrev place : ℕ → Ordering
    place = order s e.version e.key

    abbrev nds : List ℕ
    nds = holds.levels 0

    base : with_node place nd h holds.levels 0 ≡ insert_at place nd nds
    base = let low : ltb 0 h ≡ true = ground arith in rw low refl

    orders : All (λ q. order s' e.version e.key q ≡ place q) nds
    unfolding order entry
    orders =
        All-imp (λ p. item s' p ≡ item s p) (λ p. order s' e.version e.key p ≡ place p) nds
          (λ p same.
            ap (λ (i : Item). entry_order s'.cmp (e.key, e.version) (i.key, i.version)) same
            ∙ ap (λ (x : Comparator). entry_order x (e.key, e.version) (entry s p)) grown.cmp_kept)
          grown.items_kept

    is_entry : entry s' nd ≡ (e.key, e.version)
    unfolding entry
    is_entry = ap (λ (i : Item). (i.key, i.version)) grown.is_item

    absent' : All (λ q. order s' e.version e.key q ≢ eq) nds
    absent' =
        All-imp (λ q. (order s' e.version e.key q ≡ place q) × (place q ≢ eq))
          (λ q. order s' e.version e.key q ≢ eq) nds (λ q b x. b.1 (sym b.0 ∙ x))
          (All-zip (λ q. order s' e.version e.key q ≡ place q) (λ q. place q ≢ eq) nds orders
            (Holds-absent e.version e.key absent))

    grown-latest :
        (v : ℕ) (key : Bytes)
        → latest s'.cmp v key (contents s' (with_node place nd h holds.levels 0))
          ≡ latest s'.cmp v key (e ∷ es)
    grown-latest v key =
        let items : (item s' nd ∷ contents s' nds) ≡ (e ∷ contents s nds) =
          ground (arith, grown.is_item, contents-same s s' nds grown.items_kept) in
        let before : latest s'.cmp v key (contents s nds) ≡ latest s'.cmp v key es =
          subst (λ (x : Comparator). latest x v key (contents s nds) ≡ latest x v key es)
            (sym grown.cmp_kept) (holds.same v key) in
        ap (λ l. latest s'.cmp v key (contents s' l))
          (base ∙ sym (insert_at-same place (order s' e.version e.key) nd nds orders))
        ∙ latest-insert_at s' e.version e.key nd is'.ordered is_entry v key nds absent'
        ∙ ap (latest s'.cmp v key) items
        ∙ latest-cons s'.cmp v key e (contents s nds) es before

    members' : All (λ p. Among (item s' p) (e ∷ es)) nds
    members' =
        All-imp (λ p. (item s' p ≡ item s p) × Among (item s p) es)
          (λ p. Among (item s' p) (e ∷ es)) nds (λ p b. inr (subst (λ i. Among i es) (sym b.0) b.1))
          (All-zip (λ p. item s' p ≡ item s p) (λ p. Among (item s p) es) nds grown.items_kept
            holds.members)

    pub grown-Holds : Holds free c o (e ∷ es) s'
    grown-Holds = record {
      height = raised nd h holds.height;
      head = holds.head;
      tail = holds.tail;
      nodes = nd ∷ holds.nodes;
      levels = with_node place nd h holds.levels;
      is = is';
      lay = lay';
      cmp_is = grown.cmp_kept ∙ holds.cmp_is;
      opts_is = grown.opts_kept ∙ holds.opts_is;
      same = grown-latest;
      members = subst (All (λ p. Among (item s' p) (e ∷ es))) (sym base) (
          All-insert_at place (λ p. Among (item s' p) (e ∷ es)) nd nds (inl grown.is_item)
            members');
      size = ap length base ∙ length-insert_at place nd nds ∙ omega (arith, holds.size);
    }
