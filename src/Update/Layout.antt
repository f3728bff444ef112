-- ===== src/Update/Layout.antt =====
-- Where the nodes of a map lie in its arena, and that a node in memory that was free joins them.
use skl.Prelude.{
  ℕ, ◌≤◌, ◌<◌, ◌≡◌, ◌≢◌, ◌⊎◌, inl, inr, refl, sym, ◌∙◌, Bool, true, false, List, ◌∷◌, arith, ◌==◌,
  if◌then◌else◌, Bool-cases,
}
use skl.Compare.{Trailer}
use skl.SkipMap.{SkipMap}
use skl.SkipMap.Shape.{All}
use skl.Splice.Bracket.{All-imp, All-zip}
use skl.Alloc.Kept.{IsUsed}
use skl.Alloc.Stored.{node_end}
use skl.Update.Link.{Nodes, Apart}
use skl.Update.Levels.{IsSound, IsNew}

-- The nodes do not overlap, and neither they nor what their entries are read from is free; each level
-- runs through them.
pub record IsLayout {A T : Type 0} ⦃t : Trailer T⦄ (free : ℕ → Bool) (height : ℕ → ℕ)
    (N : ℕ → Type 0) (s : SkipMap A T) (levels : ℕ → List ℕ) : Type 0 where
  pub nodes : Nodes height N
  pub held : (p : ℕ) → N p → (x : ℕ) → p ≤ x → x < node_end p (height p) → free x ≡ false
  pub null_held : free 0 ≡ false
  pub sound : (k : ℕ) → k < s.opts.max_height → IsSound height N 0 s.head s.tail k (levels k)
  pub used : All (IsUsed free s.mem) (levels 0)

-- The soundness of a level does not speak of the new node.
pub IsSound-for :
    {height : ℕ → ℕ} {N : ℕ → Type 0} {head tail i : ℕ} {ps : List ℕ} (nd nd' : ℕ)
    → IsSound height N nd head tail i ps
    → IsSound height N nd' head tail i ps
IsSound-for nd nd' s = record {
  nodes_known = s.nodes_known;
  tall = s.tall;
  ne_null = s.ne_null;
  tail_known = s.tail_known;
  tail_ne_null = s.tail_ne_null;
  tail_tall = s.tail_tall;
  distinct = s.distinct;
  before_tail = s.before_tail;
}

-- The nodes with one more, and their heights.
abbrev pub WithNode : (nd : ℕ) → (ℕ → Type 0) → ℕ → Type 0
WithNode nd N p = (p ≡ nd) ⊎ N p

abbrev pub raised : (nd h : ℕ) → (ℕ → ℕ) → ℕ → ℕ
raised nd h height p = if p == nd then h else height p

module _ (free : ℕ → Bool) (height : ℕ → ℕ) (N : ℕ → Type 0) (nd h : ℕ) (nodes : Nodes height N)
    (held : (p : ℕ) → N p → (x : ℕ) → p ≤ x → x < node_end p (height p) → free x ≡ false)
    (was_free : (x : ℕ) → nd ≤ x → x < node_end nd h → free x ≡ true) where
  pub not_known : (p : ℕ) → N p → nd ≢ p
  not_known p n e = ground (
    arith,
    held p n p (omega arith) (omega arith),
    was_free p (omega (arith, e)) (omega (arith, e)),
  )

  apart : (p : ℕ) → N p → Apart nd h p (height p)
  apart p n = grind (
    arith,
    held p n nd,
    held p n p (omega arith) (omega arith),
    was_free nd (omega arith) (omega arith),
    was_free p,
  )

  kept_height : (p : ℕ) → N p → raised nd h height p ≡ height p
  kept_height p n = ground (arith, not_known p n)

  pub WithNode-Nodes : Nodes (raised nd h height) (WithNode nd N)
  WithNode-Nodes = record { apart = apart_of }
    where
      apart_of :
          (p q : ℕ)
          → WithNode nd N p
          → WithNode nd N q
          → p ≢ q
          → Apart p (raised nd h height p) q (raised nd h height q)
      apart_of p q (inl a) (inl b) ne = absurd (ne (a ∙ sym b))
      apart_of p q (inl a) (inr b) ne = ground (arith, apart q b, kept_height q b, a)
      apart_of p q (inr a) (inl b) ne = ground (arith, apart p a, kept_height p a, b)
      apart_of p q (inr a) (inr b) ne =
          ground (arith, nodes.apart p q a b ne, kept_height p a, kept_height q b)

  All-WithNode : (ps : List ℕ) → All N ps → All (WithNode nd N) ps
  All-WithNode ps = All-imp N (WithNode nd N) ps (λ p n. inr n)

  module _ {head tail k : ℕ} {ps : List ℕ} (sound : IsSound height N 0 head tail k ps) where
    pub WithNode-IsSound : IsSound (raised nd h height) (WithNode nd N) nd head tail k ps
    WithNode-IsSound = record {
      nodes_known = All-WithNode (head ∷ ps) sound.nodes_known;
      tall =
          All-imp (λ p. N p × (k < height p)) (λ p. k < raised nd h height p) (head ∷ ps)
            (λ p n. omega (arith, n.1, kept_height p n.0))
            (All-zip N (λ p. k < height p) (head ∷ ps) sound.nodes_known sound.tall);
      ne_null = sound.ne_null;
      tail_known = inr sound.tail_known;
      tail_ne_null = sound.tail_ne_null;
      tail_tall = omega (arith, sound.tail_tall, kept_height tail sound.tail_known);
      distinct = sound.distinct;
      before_tail = sound.before_tail;
    }

    pub WithNode-IsNew :
        k < h → free 0 ≡ false → IsNew (raised nd h height) (WithNode nd N) nd head tail k ps
    WithNode-IsNew low z = record {
      known = inl refl;
      tall = ground arith;
      ne_null = λ e. ground (arith, z, was_free nd (omega arith) (omega arith), e);
      ne_tail = not_known tail sound.tail_known;
      absent = All-imp N (λ p. nd ≢ p) (head ∷ ps) (λ p n. not_known p n) sound.nodes_known;
    }

  pub WithNode-held :
      (free' : ℕ → Bool)
      → ((x : ℕ) → free' x ≡ true → free x ≡ true)
      → ((x : ℕ) → free' x ≡ true → (x < nd) ⊎ (node_end nd h ≤ x))
      → (p : ℕ) → WithNode nd N p
      → (x : ℕ) → p ≤ x
      → x < node_end p (raised nd h height p)
      → free' x ≡ false
  WithNode-held free' still out p n x lo hi = elim (Bool-cases (free' x)) [
    | inr f ↦ f
    | inl f ↦ absurd (clash n f)
  ]
    where
      clash : WithNode nd N p → free' x ≡ true → ⊥
      clash (inl a) f = ground (arith, out x f, a)
      clash (inr a) f =
          ground (arith, still x f, held p a x lo (omega (arith, hi, kept_height p a)))
