-- ===== src/Update/Link.antt =====
-- One level of the linking: with the links as the search found them both exchanges succeed, and the
-- new node stands between its neighbours.
use skl.Prelude.{ℕ, suc, ◌+◌, ◌*◌, ◌≤◌, ◌<◌, ◌≡◌, ◌≢◌, ◌⊎◌, inl, inr, Bool, Option, arith}
use native.Mathlib.Decide.{ℕ_discrete}
use skl.Compare.{Trailer}
use skl.Node.{next_offset, prev_offset, tower_offset, update}
use skl.Types.{VacantBuffer}
use skl.Run.{ok}
use skl.Arena.{Arena}
use skl.SkipMap.{SkipMap}
use skl.Store.{write_tower, cas_next_offset, cas_prev_offset}
use skl.Alloc.{Filled}
use skl.Update.{Linking, linked, help, link_level}

-- The parts of the arena that two nodes of these heights take up do not meet.
abbrev pub Apart : (p h q k : ℕ) → Type 0
Apart p h q k = (p + 16 + h * 8 ≤ q) ⊎ (q + 16 + k * 8 ≤ p)

-- Two nodes apart have no slot in common.
pub tower_offset-ne :
    (p h q k i j : ℕ) → Apart p h q k → i < h → j < k → tower_offset p i ≢ tower_offset q j
unfolding tower_offset
tower_offset-ne p h q k i j a b c = omega arith

module _ {A T : Type 0} where
  -- the links after a node has been put between two others on a level
  unfoldable pub spliced : (nd i prev next : ℕ) → SkipMap A T → SkipMap A T
  spliced nd i prev next s = record s {
    mem = record (s.mem) {
      link =
          update
            (update
              (update s.mem.link (tower_offset nd i)
                (record { next_offset = next; prev_offset = prev }))
              (tower_offset prev i)
              (record { next_offset = nd; prev_offset = prev_offset s.mem prev i }))
            (tower_offset next i)
            (record { next_offset = next_offset s.mem next i; prev_offset = nd });
    };
  }

module _ {A T E F : Type 0} ⦃t : Trailer T⦄ (ar : Arena A E) (fuel : ℕ) (meanwhile : Option ℕ)
    (trailer : T) (value_size : ℕ) (f : VacantBuffer → Filled F) (upserts : Bool) (nd : ℕ)
    (i prev next : ℕ) (g : Linking) (s : SkipMap A T) where
  pub link_level-spliced :
      (rounds : ℕ)
      → tower_offset nd i ≢ tower_offset prev i
      → tower_offset nd i ≢ tower_offset next i
      → tower_offset prev i ≢ tower_offset next i
      → next_offset s.mem prev i ≡ next
      → prev_offset s.mem next i ≡ prev
      → link_level ar fuel meanwhile trailer value_size f upserts nd (suc rounds) i prev next g s
        ≡ ok (linked g) (spliced nd i prev next s)
  unfolding link_level help write_tower cas_next_offset cas_prev_offset spliced next_offset
      prev_offset
  link_level-spliced rounds a b c e k = ground arith

module _ {A T : Type 0} (s : SkipMap A T) (nd i prev next : ℕ) where
  -- What the links read after the splice, each slot given by its address.
  pub spliced-prev :
      tower_offset prev i ≢ tower_offset next i
      → next_offset (spliced nd i prev next s).mem prev i ≡ nd
  unfolding spliced update next_offset prev_offset
  spliced-prev a = ground arith

  pub spliced-next : prev_offset (spliced nd i prev next s).mem next i ≡ nd
  unfolding spliced update next_offset prev_offset
  spliced-next = ground arith

  pub spliced-node :
      tower_offset nd i ≢ tower_offset prev i
      → tower_offset nd i ≢ tower_offset next i
      → (next_offset (spliced nd i prev next s).mem nd i ≡ next)
        × (prev_offset (spliced nd i prev next s).mem nd i ≡ prev)
  unfolding spliced update next_offset prev_offset
  spliced-node a b = (ground arith, ground arith)

  pub next-spliced :
      (q j : ℕ)
      → tower_offset q j ≢ tower_offset nd i
      → tower_offset q j ≢ tower_offset prev i
      → next_offset (spliced nd i prev next s).mem q j ≡ next_offset s.mem q j
  unfolding spliced update next_offset prev_offset
  next-spliced q j a b = ground arith

  pub prev-spliced :
      (q j : ℕ)
      → tower_offset prev i ≢ tower_offset next i
      → tower_offset q j ≢ tower_offset nd i
      → tower_offset q j ≢ tower_offset next i
      → prev_offset (spliced nd i prev next s).mem q j ≡ prev_offset s.mem q j
  unfolding spliced update next_offset prev_offset
  prev-spliced q j c a b = ground arith

-- Nodes with the heights of their towers, no two of which meet.
pub record Nodes (height : ℕ → ℕ) (N : ℕ → Type 0) : Type 0 where
  pub apart : (p q : ℕ) → N p → N q → p ≢ q → Apart p (height p) q (height q)

module _ {height : ℕ → ℕ} {N : ℕ → Type 0} (nodes : Nodes height N) where
  pub slot-ne :
      (p q i j : ℕ)
      → N p
      → N q
      → i < height p
      → j < height q
      → (p ≢ q) ⊎ (i ≢ j)
      → tower_offset p i ≢ tower_offset q j
  slot-ne p q i j m n a b (inl e) =
      tower_offset-ne p (height p) q (height q) i j (nodes.apart p q m n e) a b
  slot-ne p q i j m n a b (inr e) = elim (ℕ_discrete p q) [
    | yes same ↦ rw same (unfold tower_offset in omega arith)
    | no differ ↦ tower_offset-ne p (height p) q (height q) i j (nodes.apart p q m n differ) a b
  ]
