-- ===== src/Create/Ends.antt =====
-- What the allocations of the counters, the head and the tail leave.

use skl.Prelude.{
  ℕ, ◌+◌, ◌*◌, ◌%◌, ◌≤◌, ◌<◌, ◌^◌, ◌≡◌, ◌⊎◌, inl, inr, refl, ap, ◌∙◌, Bool, true, ◌==◌,
  if◌then◌else◌, arith,
}
use skl.Compare.{Trailer}
use skl.Node.{null, node_size, link_size}
use skl.Meta
use skl.Meta.{Meta}
use skl.Run.{Failure, right, Error, arena, ok, M, pure, ◌>>=◌, ◌>>◌, and_then}
use skl.Run.Ends.{Ends, Ends-and_then, Ends-if, Ends-either, Ends-imp}
use skl.Arena.{Region, Alloc, Arena}
use skl.Arena.Laws.{IsTaken, NoneFreed, IsArena}
use skl.SkipMap.{SkipMap}
use skl.Store.{set_node}
use skl.Alloc.{node_align, modify, allocate}
use skl.Alloc.Stored.{node_end}
use skl.Create.{meta_size, meta_align, full, allocate_full_node, allocate_meta}

-- The error is not one of a caller's closure.
abbrev pub IsOwn : {S F E : Type 0} → Failure F E → S → Type 0
IsOwn {E = E} e s = (x : Error E) × (e ≡ right x)

-- Only the arena's state is another.
abbrev pub Rearranged : {A T : Type 0} → SkipMap A T → SkipMap A T → Type 0
Rearranged s s' = s' ≡ record s { arena = s'.arena }

pub allocate-Ends :
    {A T E : Type 0} (F : Type 0) (f : A → Alloc A E) (s : SkipMap A T)
    → Ends
        (λ r s'. (f s.arena ≡ Alloc.allocated r s'.arena) × Rearranged s s')
        IsOwn
        (allocate {F = F} f s)
unfolding allocate
allocate-Ends {A} {T} {E} F f s = by_answer (f s.arena) refl
  where
    by_answer :
        (x : Alloc A E)
        → f s.arena ≡ x
        → Ends
            (λ r s'. (f s.arena ≡ Alloc.allocated r s'.arena) × Rearranged s s')
            IsOwn
            (allocate {F = F} (λ _. x) s)
    by_answer (Alloc.allocated r a) e = (e, refl)
    by_answer (Alloc.refused e a) h = (arena e, refl)

module _ {A T : Type 0} (free : A → ℕ → Bool) where
  -- An end of the levels: a node without an entry, in memory that was free.
  pub record IsEnd (s s' : SkipMap A T) (nd h : ℕ) : Type 0 where
    pub cmp_kept : s'.cmp ≡ s.cmp
    pub meta_kept : s'.meta ≡ s.meta
    pub opts_kept : s'.opts ≡ s.opts
    pub was_free : (x : ℕ) → nd ≤ x → x < node_end nd h → free s.arena x ≡ true
    pub still_free : NoneFreed free s.arena s'.arena
    pub outside : (x : ℕ) → free s'.arena x ≡ true → (x < nd) ⊎ (node_end nd h ≤ x)

  abbrev pub MetaMade : ℕ → SkipMap A T → Unit {0} → SkipMap A T → Type 0
  MetaMade magic_version s _ s' =
      NoneFreed free s.arena s'.arena
      × (s' ≡ record s { arena = s'.arena; meta = Meta.new magic_version })

module _ {A T E : Type 0} (F : Type 0) ⦃t : Trailer T⦄ (free : A → ℕ → Bool) (ar : Arena A E)
    (laws : IsArena free ar) where
  abbrev trailer_place : M (SkipMap A T) F E ℕ
  trailer_place =
      if t.size_of == 0
      then (λ s. ok (ar.allocated s.arena) s)
      else do trailer ← allocate (ar.alloc t.size_of t.align_of); pure trailer.offset

  abbrev Placed : SkipMap A T → ℕ → SkipMap A T → Type 0
  Placed s o s' = NoneFreed free s.arena s'.arena × Rearranged s s'

  trailer_place-Ends : (s : SkipMap A T) → Ends (Placed s) IsOwn (trailer_place s)
  trailer_place-Ends s =
      Ends-if (Placed s) IsOwn (t.size_of == 0) (λ s. ok (ar.allocated s.arena) s)
        (λ s. and_then (allocate (ar.alloc t.size_of t.align_of) s) (λ r. pure r.offset)) s
        ((λ x f. f), refl)
        (Ends-and_then _ IsOwn (Placed s) (allocate (ar.alloc t.size_of t.align_of) s)
          (λ r. pure r.offset) (allocate-Ends F (ar.alloc t.size_of t.align_of) s)
          (λ r s' h. ((laws.value t.size_of t.align_of s.arena r s'.arena h.0).still_free, h.1)))

  module _ (h : ℕ) (h_lt : h < 32) (s : SkipMap A T) where
    -- the node's own region has been taken
    abbrev NodeTaken : Region → SkipMap A T → Type 0
    NodeTaken r s' =
        IsTaken free s.arena s'.arena r.offset (node_size + h * link_size % 2 ^ 32)
        × Rearranged s s'

    abbrev then_place : Region → M (SkipMap A T) F E ℕ
    then_place node = do
      o ← trailer_place
      modify (set_node node.offset (full o h))
      pure node.offset

    placed-IsEnd :
        (node : Region) (s₁ : SkipMap A T)
        → NodeTaken node s₁
        → Ends (λ nd s'. IsEnd free s s' nd h) IsOwn (then_place node s₁)
    unfolding set_node
    placed-IsEnd node s₁ taken =
        Ends-and_then (Placed s₁) IsOwn (λ nd s'. IsEnd free s s' nd h) (trailer_place s₁)
          (λ o s'. ok node.offset (set_node node.offset (full o h) s')) (trailer_place-Ends s₁)
          (λ o s' placed. record {
            cmp_kept =
                ap (λ (x : SkipMap A T). x.cmp) placed.1 ∙ ap (λ (x : SkipMap A T). x.cmp) taken.1;
            meta_kept =
                ap (λ (x : SkipMap A T). x.meta) placed.1
                ∙ ap (λ (x : SkipMap A T). x.meta) taken.1;
            opts_kept =
                ap (λ (x : SkipMap A T). x.opts) placed.1
                ∙ ap (λ (x : SkipMap A T). x.opts) taken.1;
            was_free = λ x lo hi. taken.0.was_free x lo (omega (arith, hi));
            still_free = λ x f. taken.0.still_free x (placed.0 x f);
            outside = λ x f. elim (taken.0.not_twice x (placed.0 x f)) [
              | inl a ↦ inl a
              | inr b ↦ inr (omega arith)
            ];
          })

    pub allocate_full_node-Ends :
        Ends (λ nd s'. IsEnd free s s' nd h) IsOwn (allocate_full_node {F = F} ar h s)
    unfolding allocate_full_node
    allocate_full_node-Ends =
        Ends-and_then NodeTaken IsOwn (λ nd s'. IsEnd free s s' nd h)
          (allocate (ar.alloc_aligned_bytes node_size node_align (h * link_size % 2 ^ 32)) s)
          then_place
          (Ends-imp _ IsOwn NodeTaken IsOwn
            (allocate (ar.alloc_aligned_bytes node_size node_align (h * link_size % 2 ^ 32)) s)
            (allocate-Ends F (ar.alloc_aligned_bytes node_size node_align (h * link_size % 2 ^ 32))
              s)
            (λ r s' g.
              let regional =
                laws.aligned node_size node_align (h * link_size % 2 ^ 32) s.arena r s'.arena g.0 in
              (regional.0, g.1))
            (λ e s' q. q))
          placed-IsEnd

  pub allocate_meta-Ends :
      (magic_version : ℕ) (s : SkipMap A T)
      → Ends (MetaMade free magic_version s) IsOwn (allocate_meta {F = F} ar magic_version s)
  unfolding allocate_meta
  allocate_meta-Ends magic_version s =
      Ends-and_then (λ (r : Region) s'. NoneFreed free s.arena s'.arena × Rearranged s s') IsOwn
        (MetaMade free magic_version s)
        (if s.opts.unify
          then allocate (ar.alloc meta_size meta_align) s
          else ok (record { offset = null; capacity = 0 }) s)
        (λ r s'. ok tt (record s' { meta = Meta.new magic_version }))
        (Ends-either (λ (r : Region) s'. NoneFreed free s.arena s'.arena × Rearranged s s') IsOwn
          s.opts.unify (allocate (ar.alloc meta_size meta_align) s)
          (ok (record { offset = null; capacity = 0 }) s)
          (Ends-imp _ IsOwn _ IsOwn (allocate (ar.alloc meta_size meta_align) s)
            (allocate-Ends F (ar.alloc meta_size meta_align) s)
            (λ r s' g. ((laws.value meta_size meta_align s.arena r s'.arena g.0).still_free, g.1))
            (λ e s' q. q))
          ((λ x f. f), refl))
        (λ r s' g. (g.0, ap (λ (x : SkipMap A T). record x { meta = Meta.new magic_version }) g.1))
