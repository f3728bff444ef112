-- ===== src/Race/Moves.antt =====
-- What the writes of a thread do to the links of its level.
use skl.Prelude.{
  ℕ, ◌≡◌, ◌≢◌, ◌⊎◌, inl, inr, refl, Option, none, some, true, false, Bool-cases, eq, lt, gt,
  Ordering, arith, ◌==◌,
}
use skl.Compare.{Trailer}
use skl.Node.{next_offset, prev_offset, tower_offset, update, get_bytes}
use skl.Types.{Key, as_ref}
use skl.Arena.{Arena}
use skl.Alloc.{dealloc}
use skl.SkipMap.{SkipMap, order}
use skl.Splice.{Pointer, shared_key}
use skl.Store.{write_tower, cas_next_offset, cas_prev_offset, set_link, set_node}
use skl.Upsert.{on_fail}
use skl.Update.{Linking, share_key}
use skl.Race.{met, Thread, Pc, at, look, again}

module _ {A T : Type 0} (i : ℕ) (s : SkipMap A T) where
  -- the two links of a node on the level
  abbrev pub next_of : ℕ → ℕ
  next_of q = next_offset s.mem q i

  abbrev pub prev_of : ℕ → ℕ
  prev_of q = prev_offset s.mem q i

module _ {A T : Type 0} (i nd p n : ℕ) (s : SkipMap A T) where
  pub write_tower-own :
      (next_of i (write_tower nd i p n s) nd ≡ n) × (prev_of i (write_tower nd i p n s) nd ≡ p)
  unfolding write_tower set_link update next_offset prev_offset
  write_tower-own = (ground arith, ground arith)

  pub write_tower-other :
      (q : ℕ)
      → q ≢ nd
      → (next_of i (write_tower nd i p n s) q ≡ next_of i s q)
        × (prev_of i (write_tower nd i p n s) q ≡ prev_of i s q)
  unfolding write_tower set_link update next_offset prev_offset tower_offset
  write_tower-other q ne = (ground arith, ground arith)

module _ {A T : Type 0} (i p n nd : ℕ) (s : SkipMap A T) where
  pub cas_next_offset-lost : next_of i s p ≢ n → cas_next_offset p i n nd s ≡ (false, s)
  unfolding cas_next_offset next_offset
  cas_next_offset-lost h = ground arith

  pub cas_next_offset-won :
      next_of i s p ≡ n
      → ((cas_next_offset p i n nd s).0 ≡ true)
        × (next_of i (cas_next_offset p i n nd s).1 p ≡ nd)
        × ((q : ℕ) → q ≢ p → next_of i (cas_next_offset p i n nd s).1 q ≡ next_of i s q)
        × ((q : ℕ) → prev_of i (cas_next_offset p i n nd s).1 q ≡ prev_of i s q)
  unfolding cas_next_offset next_offset prev_offset set_link update tower_offset
  cas_next_offset-won h = (ground arith, ground arith, λ q ne. ground arith, λ q. ground arith)

  -- here `p` is what the link back shows before, and `nd` what it is set to
  pub cas_prev_offset-next : (q : ℕ) → next_of i (cas_prev_offset n i p nd s).1 q ≡ next_of i s q
  unfolding cas_prev_offset next_offset set_link update tower_offset
  cas_prev_offset-next q = ground arith

  pub cas_prev_offset-other :
      (q : ℕ) → q ≢ n → prev_of i (cas_prev_offset n i p nd s).1 q ≡ prev_of i s q
  unfolding cas_prev_offset prev_offset set_link update tower_offset
  cas_prev_offset-other q ne = ground arith

  pub cas_prev_offset-here :
      ((prev_of i s n ≡ p) × (prev_of i (cas_prev_offset n i p nd s).1 n ≡ nd))
      ⊎ ((prev_of i s n ≢ p) × (prev_of i (cas_prev_offset n i p nd s).1 n ≡ prev_of i s n))
  unfolding cas_prev_offset prev_offset set_link update tower_offset
  cas_prev_offset-here = ground arith

  pub cas-ends :
      ((cas_next_offset p i n nd s).1.head ≡ s.head)
      × ((cas_next_offset p i n nd s).1.tail ≡ s.tail)
      × ((cas_prev_offset n i p nd s).1.head ≡ s.head)
      × ((cas_prev_offset n i p nd s).1.tail ≡ s.tail)
  unfolding cas_next_offset cas_prev_offset set_link
  cas-ends = (ground arith, ground arith, ground arith, ground arith)

module _ {A T E : Type 0} ⦃t : Trailer T⦄ (ar : Arena A E) where
  -- A map with another arena, and other headers, keys and trailers of nodes.
  abbrev pub SameLinks : SkipMap A T → SkipMap A T → Type 0
  SameLinks s s' = (s'.mem.link ≡ s.mem.link) × (s'.head ≡ s.head) × (s'.tail ≡ s.tail)

  pub on_fail-SameLinks : (k : Key) (s : SkipMap A T) → SameLinks s (on_fail ar k s)
  unfolding on_fail dealloc
  on_fail-SameLinks (Key.occupied key) s = (refl, refl, refl)
  on_fail-SameLinks (Key.vacant b) s = (ground arith, ground arith, ground arith)
  on_fail-SameLinks (Key.pointer offset len) s = (refl, refl, refl)
  on_fail-SameLinks (Key.remove key) s = (refl, refl, refl)
  on_fail-SameLinks (Key.remove_vacant b) s = (ground arith, ground arith, ground arith)
  on_fail-SameLinks (Key.remove_pointer offset len) s = (refl, refl, refl)

  share_key-SameLinks :
      (nd : ℕ) (o : Option Pointer) (g : Linking) (s : SkipMap A T)
      → SameLinks s (share_key ar nd o g s).1
  unfolding share_key set_node
  share_key-SameLinks nd none g s = (refl, refl, refl)
  share_key-SameLinks nd (some p) g s = on_fail-SameLinks g.k s

  again-SameLinks :
      (i : ℕ) (o : Option Pointer) (x next : ℕ) (th : Thread) (s : SkipMap A T)
      → SameLinks s (again ar i o x next th s).1
  unfolding again
  again-SameLinks i o x next th s = share_key-SameLinks th.nd o th.g s

  -- Where a thread stands after a round of the search, which leaves the links alone.
  abbrev pub AfterLook : (i x next : ℕ) → Thread → SkipMap A T → Thread × SkipMap A T → Type 0
  AfterLook i x next th s r =
      SameLinks s r.1
      × (r.0.nd ≡ th.nd)
      × ((r.0.pc ≡ Pc.ready x next)
          ⊎ ((r.0.pc ≡ Pc.searching next) × (next ≢ s.tail))
          ⊎ (r.0.pc ≡ met i next))

  again-AfterLook :
      (i : ℕ) (o : Option Pointer) (x next : ℕ) (th : Thread) (s : SkipMap A T)
      → AfterLook i x next th s (again ar i o x next th s)
  unfolding again
  again-AfterLook i o x next th s = (share_key-SameLinks th.nd o th.g s, refl, inl refl)

  pub look-AfterLook :
      (i x next : ℕ) (th : Thread) (s : SkipMap A T)
      → AfterLook i x next th s (look ar i x next th s)
  unfolding look
  look-AfterLook i x next th s = elim (Bool-cases (next == s.tail)) [
    | inl e ↦ rw e (again-AfterLook i none x next th s)
    | inr e ↦
        let ne : next ≢ s.tail = ground arith in
        rw e (by_order ne (order s th.version (as_ref (get_bytes s.mem) th.g.k) next))
  ]
    where
      by_order :
          next ≢ s.tail
          → (o : Ordering)
          → AfterLook i x next th s (elim o as (λ _. Thread × SkipMap A T) [
            | lt ↦
                again ar i
                  (shared_key s th.version (as_ref (get_bytes s.mem) th.g.k) next)
                  x
                  next
                  th
                  s
            | gt ↦ (at (Pc.searching next) th, s)
            | eq ↦ (at (met i next) th, s)
          ])
      by_order ne lt = again-AfterLook i _ x next th s
      by_order ne gt = ((refl, refl, refl), refl, inr (inl (refl, ne)))
      by_order ne eq = ((refl, refl, refl), refl, inr (inr refl))
