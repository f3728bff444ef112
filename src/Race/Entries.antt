-- ===== src/Race/Entries.antt =====
-- What the steps of a race leave of the entries of nodes, and the place of a thread's entry among them.
use skl.Prelude.{ℕ, ◌≡◌, ◌⊎◌, inl, inr, refl, ap, ◌∙◌, List, [], ◌∷◌, lt, eq, gt, arith, Ordering}
use skl.Compare.{Bytes, Trailer, Comparator}
use skl.Compare.Laws.{entry_order}
use skl.Node.{get_key, version, get_bytes, key_size, get_trailer, get_trailer_by_offset}
use skl.Types.{as_ref}
use skl.SkipMap.{SkipMap, entry}
use skl.SkipMap.Shape.{All}
use skl.SkipMap.Invariant.{Sorted}
use skl.Store.{write_tower, cas_next_offset, cas_prev_offset, set_link}
use skl.Race.{
  Pc, ready, written, swapping, relinking, checking, helping, searching, found, panicked, finished,
  Thread,
}

abbrev pub Everywhere : ℕ → Type 0
Everywhere q = Unit

-- The nodes of a splice, but for the ends of the level, are in `K`.
abbrev pub Mentions : (K : ℕ → Type 0) (head tail : ℕ) → Pc → Type 0
Mentions K head tail (ready p q) = ((p ≡ head) ⊎ K p) × ((q ≡ tail) ⊎ K q)
Mentions K head tail (written p q) = ((p ≡ head) ⊎ K p) × ((q ≡ tail) ⊎ K q)
Mentions K head tail (checking p q r) = ((p ≡ head) ⊎ K p) × ((q ≡ tail) ⊎ K q)
Mentions K head tail (helping p q r) = ((p ≡ head) ⊎ K p) × ((q ≡ tail) ⊎ K q)
Mentions K head tail (swapping p q) = ((p ≡ head) ⊎ K p) × ((q ≡ tail) ⊎ K q)
Mentions K head tail (searching x) = (x ≡ head) ⊎ K x
Mentions K head tail _ = Unit

pub Everywhere-Mentions : (head tail : ℕ) (pc : Pc) → Mentions Everywhere head tail pc
Everywhere-Mentions head tail (ready p q) = (inr tt, inr tt)
Everywhere-Mentions head tail (written p q) = (inr tt, inr tt)
Everywhere-Mentions head tail (checking p q r) = (inr tt, inr tt)
Everywhere-Mentions head tail (helping p q r) = (inr tt, inr tt)
Everywhere-Mentions head tail (swapping p q) = (inr tt, inr tt)
Everywhere-Mentions head tail (searching x) = inr tt
Everywhere-Mentions head tail (relinking p q) = tt
Everywhere-Mentions head tail (found x) = tt
Everywhere-Mentions head tail (panicked x) = tt
Everywhere-Mentions head tail finished = tt

same_order :
    (c c' : Comparator) (a a' b b' : Bytes × ℕ)
    → c' ≡ c
    → a' ≡ a
    → b' ≡ b
    → entry_order c' a' b' ≡ entry_order c a b
same_order c c' a a' b b' ec ea eb = rw (ec, ea, eb) refl

module _ {A T : Type 0} ⦃t : Trailer T⦄ where
  -- Between two maps the entries of the nodes in `K` are the same, and so are all bytes.
  pub record KeepsEntries (K : ℕ → Type 0) (s s' : SkipMap A T) : Type 0 where
    pub cmp_same : s'.cmp ≡ s.cmp
    pub bytes_same : get_bytes s'.mem ≡ get_bytes s.mem
    pub entry_same : (q : ℕ) → K q → entry s' q ≡ entry s q

  pub links-KeepsEntries :
      (s s' : SkipMap A T)
      → s' ≡ record s { mem = record (s.mem) { link = s'.mem.link } }
      → KeepsEntries Everywhere s s'
  unfolding entry get_key version get_bytes key_size get_trailer get_trailer_by_offset
  links-KeepsEntries s s' e = record {
    cmp_same = ap (λ (x : SkipMap A T). x.cmp) e;
    bytes_same = ap (λ (x : SkipMap A T). get_bytes x.mem) e;
    entry_same = λ q _. ap (λ (x : SkipMap A T). entry x q) e;
  }

  -- Only links differ.
  abbrev pub LinksOnly : SkipMap A T → SkipMap A T → Type 0
  LinksOnly s s' = s' ≡ record s { mem = record (s.mem) { link = s'.mem.link } }

  pub write_tower-LinksOnly :
      (nd i p q : ℕ) (s : SkipMap A T) → LinksOnly s (write_tower nd i p q s)
  unfolding write_tower set_link
  write_tower-LinksOnly nd i p q s = refl

  pub cas_next_offset-LinksOnly :
      (nd i p q : ℕ) (s : SkipMap A T) → LinksOnly s (cas_next_offset nd i p q s).1
  unfolding cas_next_offset set_link
  cas_next_offset-LinksOnly nd i p q s = ground arith

  pub cas_prev_offset-LinksOnly :
      (nd i p q : ℕ) (s : SkipMap A T) → LinksOnly s (cas_prev_offset nd i p q s).1
  unfolding cas_prev_offset set_link
  cas_prev_offset-LinksOnly nd i p q s = ground arith

  module _ (head tail : ℕ) (s : SkipMap A T) (th : Thread) where
    abbrev pub target : Bytes × ℕ
    target = (as_ref (get_bytes s.mem) th.g.k, th.version)

    -- where the target stands against a node
    abbrev pub against : ℕ → Ordering
    against q = entry_order s.cmp target (entry s q)

    abbrev pub IsBehind : ℕ → Type 0
    IsBehind p = (p ≡ head) ⊎ (against p ≡ gt)

    abbrev pub IsBefore : ℕ → Type 0
    IsBefore q = (q ≡ tail) ⊎ (against q ≡ lt)

    -- The thread's node holds its target, and its splice is around the target's place.
    abbrev pub Places : Pc → Type 0
    Places (ready p q) = (against th.nd ≡ eq) × IsBehind p × IsBefore q
    Places (written p q) = (against th.nd ≡ eq) × IsBehind p × IsBefore q
    Places (checking p q r) = (against th.nd ≡ eq) × IsBehind p × IsBefore q
    Places (helping p q r) = (against th.nd ≡ eq) × IsBehind p × IsBefore q
    Places (swapping p q) = (against th.nd ≡ eq) × IsBehind p × IsBefore q
    Places (searching x) = (against th.nd ≡ eq) × IsBehind x
    Places (relinking p q) = Unit
    Places (found x) = Unit
    Places (panicked x) = Unit
    Places finished = Unit

  module _ (K : ℕ → Type 0) (head tail : ℕ) (s s' : SkipMap A T) (ke : KeepsEntries K s s')
      (th : Thread) where
    against-kept : (q : ℕ) → K q → against head tail s' th q ≡ against head tail s th q
    against-kept q k =
        same_order s.cmp s'.cmp (target head tail s th) (target head tail s' th) (entry s q)
          (entry s' q) ke.cmp_same
          (ap (λ (f : ℕ → ℕ → Bytes). (as_ref f th.g.k, th.version)) ke.bytes_same)
          (ke.entry_same q k)

    behind : (p : ℕ) → (p ≡ head) ⊎ K p → IsBehind head tail s th p → IsBehind head tail s' th p
    behind p k (inl e) = inl e
    behind p (inl e) (inr h) = inl e
    behind p (inr k) (inr h) = inr (against-kept p k ∙ h)

    before : (q : ℕ) → (q ≡ tail) ⊎ K q → IsBefore head tail s th q → IsBefore head tail s' th q
    before q k (inl e) = inl e
    before q (inl e) (inr h) = inl e
    before q (inr k) (inr h) = inr (against-kept q k ∙ h)

    around :
        (p q : ℕ)
        → K th.nd
        → ((p ≡ head) ⊎ K p) × ((q ≡ tail) ⊎ K q)
        → (against head tail s th th.nd ≡ eq)
          × IsBehind head tail s th p
          × IsBefore head tail s th q
        → (against head tail s' th th.nd ≡ eq)
          × IsBehind head tail s' th p
          × IsBefore head tail s' th q
    around p q own m h = (against-kept th.nd own ∙ h.0, behind p m.0 h.1, before q m.1 h.2)

    pub Places-kept :
        (pc : Pc)
        → K th.nd
        → Mentions K head tail pc
        → Places head tail s th pc
        → Places head tail s' th pc
    Places-kept (ready p q) own m h = around p q own m h
    Places-kept (written p q) own m h = around p q own m h
    Places-kept (checking p q r) own m h = around p q own m h
    Places-kept (helping p q r) own m h = around p q own m h
    Places-kept (swapping p q) own m h = around p q own m h
    Places-kept (searching x) own m h = (against-kept th.nd own ∙ h.0, behind x m h.1)
    Places-kept (relinking p q) own m h = tt
    Places-kept (found x) own m h = tt
    Places-kept (panicked x) own m h = tt
    Places-kept finished own m h = tt

  pub Sorted-kept :
      (s s' : SkipMap A T) (ps : List ℕ)
      → s'.cmp ≡ s.cmp
      → All (λ q. entry s' q ≡ entry s q) ps
      → Sorted s ps
      → Sorted s' ps
  Sorted-kept s s' [] ec a h = tt
  Sorted-kept s s' (p ∷ ps) ec a h = (ahead ps a.1 h.0, Sorted-kept s s' ps ec a.1 h.1)
    where
      ahead :
          (qs : List ℕ)
          → All (λ q. entry s' q ≡ entry s q) qs
          → All (λ q. entry_order s.cmp (entry s p) (entry s q) ≡ lt) qs
          → All (λ q. entry_order s'.cmp (entry s' p) (entry s' q) ≡ lt) qs
      ahead [] b k = tt
      ahead (q ∷ qs) b k = (
        same_order s.cmp s'.cmp (entry s p) (entry s' p) (entry s q) (entry s' q) ec a.0 b.0 ∙ k.0,
        ahead qs b.1 k.1,
      )
