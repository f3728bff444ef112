-- ===== src/Create/Empty.antt =====
-- What new_in and clear leave: a well-formed map without entries.
use skl.Prelude.{ℕ, zero, suc, ◌+◌, ◌≤◌, ◌<◌, ◌≡◌, ◌≢◌, refl, sym, subst, ◌∙◌, [], arith}
use native.Mathlib.Decide.{ℕ_discrete}
use skl.Compare.{Trailer}
use skl.Compare.Laws.{IsOrder}
use skl.Node.{tower, tower_offset, next_offset, prev_offset, update}
use skl.SkipMap.{SkipMap, get_next, get_prev}
use skl.SkipMap.Invariant.{IsSkipList}
use skl.Store.{set_link}
use skl.Update.Link.{Apart, tower_offset-ne}
use skl.Create.{link_ends}

slots-ne : (p i j : ℕ) → i ≢ j → tower_offset p i ≢ tower_offset p j
unfolding tower_offset
slots-ne p i j ne = omega arith

module _ {A T : Type 0} (head tail : ℕ) where
  -- Only links have changed.
  pub link_ends_rest :
      (levels i : ℕ) (s : SkipMap A T)
      → link_ends levels i head tail s
        ≡ record s { mem = record (s.mem) { link = (link_ends levels i head tail s).mem.link } }
  unfolding link_ends set_link
  link_ends_rest zero i s = refl
  link_ends_rest (suc levels) i s = link_ends_rest levels (i + 1) _

  module _ (h : ℕ) (apart : Apart head h tail h) where
    -- The links below the level that the loop has come to stay.
    link_ends-before :
        (levels i j : ℕ) (s : SkipMap A T)
        → j < i
        → i + levels ≤ h
        → (next_offset (link_ends levels i head tail s).mem head j ≡ next_offset s.mem head j)
          × (prev_offset (link_ends levels i head tail s).mem tail j ≡ prev_offset s.mem tail j)
    unfolding link_ends set_link update next_offset prev_offset tower
    link_ends-before zero i j s a b = (refl, refl)
    link_ends-before (suc levels) i j s a b =
        let rest = link_ends-before levels (i + 1) j _ (omega arith) (omega arith) in
        let n₁ = tower_offset-ne head h tail h j i apart (omega arith) (omega arith) in
        let n₂ = tower_offset-ne head h tail h i j apart (omega arith) (omega arith) in
        let n₃ = slots-ne head j i (omega arith) in
        let n₄ = slots-ne tail j i (omega arith) in
        (rest.0 ∙ ground (arith, n₁, n₃), rest.1 ∙ ground (arith, n₂, n₄))

    link_ends-linked :
        (levels i j : ℕ) (s : SkipMap A T)
        → i ≤ j
        → j < i + levels
        → i + levels ≤ h
        → (next_offset (link_ends levels i head tail s).mem head j ≡ tail)
          × (prev_offset (link_ends levels i head tail s).mem tail j ≡ head)
    unfolding link_ends set_link update next_offset prev_offset tower
    link_ends-linked zero i j s lo hi b = absurd (omega arith)
    link_ends-linked (suc levels) i j s lo hi b = elim (ℕ_discrete i j) [
      | yes e ↦
          let rest = link_ends-before levels (i + 1) j _ (omega arith) (omega arith) in
          let n = tower_offset-ne head h tail h j i apart (omega arith) (omega arith) in
          (rest.0 ∙ ground (arith, n, e), rest.1 ∙ ground (arith, n, e))
      | no ne ↦ link_ends-linked levels (i + 1) j _ (omega arith) (omega arith) (omega arith)
    ]

-- Let the head and the tail be two nodes with towers of the map's greatest height that do not
-- overlap, that height be from 1 to 31, the comparator a total preorder, and the map's height 1. Then
-- linking the two on all levels leaves a well-formed map without entries.
pub link_ends-IsSkipList :
    {A T : Type 0} ⦃t : Trailer T⦄ (s : SkipMap A T) (head tail : ℕ)
    → head ≢ 0
    → tail ≢ 0
    → Apart head s.opts.max_height tail s.opts.max_height
    → IsOrder s.cmp.cmp
    → s.meta.height ≡ 1
    → 1 ≤ s.opts.max_height
    → s.opts.max_height < 32
    → IsSkipList
        (record (link_ends s.opts.max_height 0 head tail s) { head = head; tail = tail })
        (λ _. [])
unfolding get_next get_prev
link_ends-IsSkipList {A} {T} s head tail hn tn apart o one low high =
    let s' = link_ends s.opts.max_height 0 head tail s in
    let linked = link_ends-linked head tail s.opts.max_height apart s.opts.max_height 0 in
    subst (λ (x : SkipMap A T). IsSkipList (record x { head = head; tail = tail }) (λ _. []))
      (sym (link_ends_rest head tail s.opts.max_height 0 s))
      (record {
        head_ne_null = hn;
        tail_ne_null = tn;
        head_ne_tail = omega (arith, apart);
        ordered = o;
        height_pos = omega arith;
        height_le = omega arith;
        max_height_lt = high;
        chain = λ i e. (ground (arith, (linked i s (omega arith) (omega arith) (omega arith)).0));
        back = λ i e. (ground (arith, (linked i s (omega arith) (omega arith) (omega arith)).1));
        nested = λ i e. tt;
        unused = λ i a b. refl;
        apart = tt;
        sorted = tt;
      })
