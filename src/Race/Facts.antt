-- ===== src/Race/Facts.antt =====
-- What each thread may rely on between its steps, on one level: which nodes are linked, where their
-- links lead, and what another thread's step leaves of it.
use skl.Prelude.{ℕ, ◌≡◌, ◌≢◌, ◌⊎◌, inl, inr, ◌∙◌, arith}
use skl.Race.{
  Pc, ready, written, swapping, relinking, checking, helping, searching, found, panicked, finished,
}

module _ (In : ℕ → Type 0) (tail : ℕ) where
  -- a node that stands behind another
  abbrev pub IsTarget : ℕ → Type 0
  IsTarget n = (n ≡ tail) ⊎ In n

  pub record IsFresh (nd : ℕ) : Type 0 where
    pub absent : ¬ In nd
    pub ne_tail : nd ≢ tail

  -- a splice: `prev` is linked, or the head, and `next` is linked, or the tail
  pub record IsSpan (p n : ℕ) : Type 0 where
    pub prev_in : In p
    pub next_in : IsTarget n

  module _ (next prev : ℕ → ℕ) where
    -- the tower of the thread's node is written
    pub record IsWritten (nd p n : ℕ) : Type 0 where
      pub fresh : IsFresh nd
      pub span : IsSpan p n
      pub own_next : next nd ≡ n
      pub own_prev : prev nd ≡ p

    -- `seen` was read of the link back from `n`. Where `p` still leads to `n`, it is a linked node, and
    -- the link back may only have been put right.
    pub record IsSeen (p n seen : ℕ) : Type 0 where
      pub seen_ne : seen ≢ p
      pub seen_in : next p ≡ n → In seen
      pub near : next p ≡ n → (prev n ≡ p) ⊎ (prev n ≡ seen)

    -- `n` is behind `p`, and no longer behind `old`: while the link back from `n` shows `old`, `p`
    -- leads to `n`
    pub record IsPast (p n old : ℕ) : Type 0 where
      pub old_in : In old
      pub ahead : next old ≢ n
      pub pending : prev n ≡ old → next p ≡ n

    abbrev pub Holds : (nd : ℕ) → Pc → Type 0
    Holds nd (ready p n) = IsFresh nd × IsSpan p n
    Holds nd (written p n) = IsWritten nd p n
    Holds nd (checking p n seen) = IsWritten nd p n × IsSeen p n seen
    Holds nd (helping p n seen) = IsWritten nd p n × IsSeen p n seen × IsPast p n seen
    Holds nd (swapping p n) = IsWritten nd p n × (next p ≡ n → prev n ≡ p)
    Holds nd (relinking p n) = In nd × IsSpan p n × (p ≢ nd) × IsPast nd n p
    Holds nd (searching x) = IsFresh nd × In x
    Holds nd (found x) = IsFresh nd
    Holds nd (panicked x) = IsFresh nd
    Holds nd finished = In nd

-- A step of the thread whose node is `own`, as the others see it.
pub record Change (In In' : ℕ → Type 0) (tail : ℕ) (next prev next' prev' : ℕ → ℕ) (own : ℕ)
    : Type 0 where
  pub grow : (q : ℕ) → In q → In' q
  pub still_fresh : (q : ℕ) → q ≢ own → IsFresh In tail q → IsFresh In' tail q
  pub next_same : (q : ℕ) → q ≢ own → IsFresh In tail q → next' q ≡ next q
  pub prev_same : (q : ℕ) → q ≢ own → IsFresh In tail q → prev' q ≡ prev q
  -- a new link never leads to a node that was there
  pub back : (p n : ℕ) → In p → IsTarget In tail n → next' p ≡ n → next p ≡ n
  -- a link back from the node behind is left alone or put right
  pub near :
      (p n : ℕ) → In p → IsTarget In tail n → next' p ≡ n → (prev' n ≡ prev n) ⊎ (prev' n ≡ p)
  pub past :
      (p n old : ℕ)
      → In p
      → IsTarget In tail n
      → old ≢ p
      → IsPast In tail next prev p n old
      → IsPast In' tail next' prev' p n old

module _ {In In' : ℕ → Type 0} {tail : ℕ} {next prev next' prev' : ℕ → ℕ} {own : ℕ}
    (ch : Change In In' tail next prev next' prev' own) where
  target : (n : ℕ) → IsTarget In tail n → IsTarget In' tail n
  target n (inl e) = inl e
  target n (inr h) = inr (ch.grow n h)

  span : (p n : ℕ) → IsSpan In tail p n → IsSpan In' tail p n
  span p n h = record { prev_in = ch.grow p h.prev_in; next_in = target n h.next_in }

  is_written :
      (nd p n : ℕ)
      → nd ≢ own
      → IsWritten In tail next prev nd p n
      → IsWritten In' tail next' prev' nd p n
  is_written nd p n ne h = record {
    fresh = ch.still_fresh nd ne h.fresh;
    span = span p n h.span;
    own_next = ch.next_same nd ne h.fresh ∙ h.own_next;
    own_prev = ch.prev_same nd ne h.fresh ∙ h.own_prev;
  }

  is_seen :
      (p n seen : ℕ)
      → IsSpan In tail p n
      → IsSeen In tail next prev p n seen
      → IsSeen In' tail next' prev' p n seen
  is_seen p n seen sp h = record {
    seen_ne = h.seen_ne;
    seen_in = λ e. ch.grow seen (h.seen_in (ch.back p n sp.prev_in sp.next_in e));
    near = λ e.
        ground (
          arith,
          h.near (ch.back p n sp.prev_in sp.next_in e),
          ch.near p n sp.prev_in sp.next_in e,
        );
  }

  -- What a thread relies on survives the steps of the others.
  pub Holds-Change :
      (nd : ℕ) (pc : Pc)
      → nd ≢ own
      → Holds In tail next prev nd pc
      → Holds In' tail next' prev' nd pc
  Holds-Change nd (ready p n) ne h = (ch.still_fresh nd ne h.0, span p n h.1)
  Holds-Change nd (written p n) ne h = is_written nd p n ne h
  Holds-Change nd (checking p n seen) ne h =
      (is_written nd p n ne h.0, is_seen p n seen h.0.span h.1)
  Holds-Change nd (helping p n seen) ne h = (
    is_written nd p n ne h.0,
    is_seen p n seen h.0.span h.1,
    ch.past p n seen h.0.span.prev_in h.0.span.next_in h.1.seen_ne h.2,
  )
  Holds-Change nd (swapping p n) ne h = (
    is_written nd p n ne h.0,
    λ e. ground (
      arith,
      h.1 (ch.back p n h.0.span.prev_in h.0.span.next_in e),
      ch.near p n h.0.span.prev_in h.0.span.next_in e,
    ),
  )
  Holds-Change nd (relinking p n) ne h =
      (ch.grow nd h.0, span p n h.1, h.2, ch.past nd n p h.0 h.1.next_in h.2 h.3)
  Holds-Change nd (searching x) ne h = (ch.still_fresh nd ne h.0, ch.grow x h.1)
  Holds-Change nd (found x) ne h = ch.still_fresh nd ne h
  Holds-Change nd (panicked x) ne h = ch.still_fresh nd ne h
  Holds-Change nd finished ne h = ch.grow nd h
