-- ===== src/Create/Ready.antt =====
-- What `new_in` and `clear` leave of a map when they succeed: it is well formed and empty, and its
-- two ends lie in the arena, so that entries can be put into it.
use skl.Prelude.{
  ℕ, ◌≤◌, ◌<◌, ◌≡◌, ◌≢◌, ◌⊎◌, inl, inr, refl, sym, ap, ◌∙◌, subst, Bool, false, Bool-cases, [],
  arith,
}
use skl.Compare.{Comparator, Trailer}
use skl.Compare.Laws.{IsOrder}
use skl.Meta
use skl.Meta.{Meta}
use skl.Run.{M, ok, and_then}
use skl.Run.Ends.{Ends, Ends-and_then}
use skl.Arena.{Arena}
use skl.Arena.Laws.{NoneFreed, IsArena}
use skl.Options.{Options}
use skl.SkipMap.{SkipMap}
use skl.SkipMap.Invariant.{IsSkipList}
use skl.Alloc.Stored.{node_end}
use skl.Update.Link.{Apart}
use skl.Update.Layout.{IsLayout}
use skl.Create.{link_ends, allocate_full_node, allocate_meta, set_up}
use skl.Create.Empty.{link_ends_rest, link_ends-IsSkipList}
use skl.Create.Ends.{IsOwn, IsEnd, MetaMade, allocate_full_node-Ends, allocate_meta-Ends}

-- A well-formed map without entries, whose head and tail, with towers of the greatest height, are in
-- use in the arena.
abbrev pub IsReady : {A T : Type 0} ⦃t : Trailer T⦄ (free : A → ℕ → Bool) (s : SkipMap A T) → Type 0
IsReady free s =
    IsSkipList s (λ _. [])
    × IsLayout (free s.arena) (λ _. s.opts.max_height) (λ p. (p ≡ s.head) ⊎ (p ≡ s.tail)) s
        (λ _. [])

held-NoneFreed :
    {A : Type 0} (free : A → ℕ → Bool) {a a' : A}
    → free a 0 ≡ false
    → NoneFreed free a a'
    → free a' 0 ≡ false
held-NoneFreed free {a} {a'} held none_freed = elim (Bool-cases (free a' 0)) [
  | inl f ↦ cc (none_freed 0 f)
  | inr n ↦ n
]

module _ {A T : Type 0} ⦃t : Trailer T⦄ (free : A → ℕ → Bool) (s s₁ s₂ : SkipMap A T)
    (head tail h : ℕ) (he : IsEnd free s s₁ head h) (te : IsEnd free s₁ s₂ tail h)
    (null_held : free s.arena 0 ≡ false) where
  head_not_null : head ≢ 0
  head_not_null e = ground (arith, null_held, he.was_free 0 (omega (arith, e)) (omega (arith, e)))

  tail_not_null : tail ≢ 0
  tail_not_null e =
      ground
        (arith, null_held, he.still_free 0 (te.was_free 0 (omega (arith, e)) (omega (arith, e))))

  ends-Apart : Apart head h tail h
  ends-Apart = grind (
    arith,
    he.outside tail (te.was_free tail (omega arith) (omega arith)),
    he.outside head,
    te.was_free head,
  )

  abbrev L : SkipMap A T
  L = link_ends h 0 head tail s₂

  abbrev final : SkipMap A T
  final = record L { head = head; tail = tail }

  final-arena : final.arena ≡ s₂.arena
  final-arena = ap (λ (x : SkipMap A T). x.arena) (link_ends_rest head tail h 0 s₂)

  final-cmp : final.cmp ≡ s₂.cmp
  final-cmp = ap (λ (x : SkipMap A T). x.cmp) (link_ends_rest head tail h 0 s₂)

  final-meta : final.meta ≡ s₂.meta
  final-meta = ap (λ (x : SkipMap A T). x.meta) (link_ends_rest head tail h 0 s₂)

  final-opts : final.opts ≡ s₂.opts
  final-opts = ap (λ (x : SkipMap A T). x.opts) (link_ends_rest head tail h 0 s₂)

  ends_held :
      (p x : ℕ) → (p ≡ head) ⊎ (p ≡ tail) → p ≤ x → x < node_end p h → free s₂.arena x ≡ false
  ends_held p x is lo hi = elim (Bool-cases (free s₂.arena x)) [
    | inl f ↦ elim is [
      | inl a ↦ absurd (omega (arith, he.outside x (te.still_free x f), a, lo, hi))
      | inr b ↦ absurd (omega (arith, te.outside x f, b, lo, hi))
    ]
    | inr n ↦ n
  ]

  null_kept : free s₂.arena 0 ≡ false
  null_kept = held-NoneFreed free null_held (λ x f. he.still_free x (te.still_free x f))

  module _ (e : s₂.opts.max_height ≡ h) where
    final_height : final.opts.max_height ≡ h
    final_height = ap (λ (o : Options). o.max_height) final-opts ∙ e

    edges-Apart :
        (p q : ℕ)
        → (p ≡ head) ⊎ (p ≡ tail)
        → (q ≡ head) ⊎ (q ≡ tail)
        → p ≢ q
        → Apart p final.opts.max_height q final.opts.max_height
    edges-Apart p q (inl a) (inl b) ne = absurd (ne (a ∙ sym b))
    edges-Apart p q (inl a) (inr b) ne = omega (arith, a, b, final_height, ends-Apart)
    edges-Apart p q (inr a) (inl b) ne = omega (arith, a, b, final_height, ends-Apart)
    edges-Apart p q (inr a) (inr b) ne = absurd (ne (a ∙ sym b))

    final-IsLayout :
        1 ≤ h
        → IsLayout
            (free final.arena)
            (λ _. final.opts.max_height)
            (λ p. (p ≡ head) ⊎ (p ≡ tail))
            final
            (λ _. [])
    final-IsLayout low = record {
      nodes = record { apart = λ p q m n ne. edges-Apart p q m n ne };
      held = λ p n x lo hi.
          ap (λ a. free a x) final-arena ∙ ends_held p x n lo (omega (arith, hi, final_height));
      null_held = ap (λ a. free a 0) final-arena ∙ null_kept;
      sound = λ k l. record {
        nodes_known = (inl refl, tt);
        tall = (l, tt);
        ne_null = (head_not_null, tt);
        tail_known = inr refl;
        tail_ne_null = tail_not_null;
        tail_tall = l;
        distinct = (tt, tt);
        before_tail = ((λ (q : head ≡ tail). omega (arith, ends-Apart, q)), tt);
      };
      used = tt;
    }

    ends-IsReady : IsOrder s₂.cmp.cmp → s₂.meta.height ≡ 1 → 1 ≤ h → h < 32 → IsReady free final
    ends-IsReady o one low high = (
      subst
          (λ (k : ℕ).
            IsSkipList (record (link_ends k 0 head tail s₂) { head = head; tail = tail }) (λ _. []))
          e
          (link_ends-IsSkipList s₂ head tail head_not_null tail_not_null
            (subst (λ k. Apart head k tail k) (sym e) ends-Apart) o one (omega (arith, e, low))
            (omega (arith, e, high))),
      final-IsLayout low,
    )

module _ {A T : Type 0} ⦃t : Trailer T⦄ (free : A → ℕ → Bool) where
  -- The map is ready, with the comparator and the options that it was to have and new counters.
  abbrev pub IsReadied : (magic_version : ℕ) → SkipMap A T → Unit {0} → SkipMap A T → Type 0
  IsReadied magic_version s _ s' =
      IsReady free s' × (s'.cmp ≡ s.cmp) × (s'.opts ≡ s.opts) × (s'.meta ≡ Meta.new magic_version)

  module _ (s s₀ s₁ s₂ : SkipMap A T) (magic_version head tail : ℕ)
      (made : MetaMade free magic_version s tt s₀) (he : IsEnd free s₀ s₁ head s₀.opts.max_height)
      (te : IsEnd free s₁ s₂ tail s₀.opts.max_height) where
    opts_kept : s₂.opts ≡ s.opts
    opts_kept = te.opts_kept ∙ he.opts_kept ∙ ap (λ (x : SkipMap A T). x.opts) made.1

    cmp_kept : s₂.cmp ≡ s.cmp
    cmp_kept = te.cmp_kept ∙ he.cmp_kept ∙ ap (λ (x : SkipMap A T). x.cmp) made.1

    new_counters : s₂.meta ≡ Meta.new magic_version
    new_counters = te.meta_kept ∙ he.meta_kept ∙ ap (λ (x : SkipMap A T). x.meta) made.1

    one_level : s₂.meta.height ≡ 1
    unfolding Meta.new
    one_level = ap (λ (m : Meta). m.height) new_counters

    ends-IsReadied :
        free s.arena 0 ≡ false
        → IsOrder s.cmp.cmp
        → 1 ≤ s.opts.max_height
        → s.opts.max_height < 32
        → IsReadied magic_version s tt
            (record (link_ends s₀.opts.max_height 0 head tail s₂) { head = head; tail = tail })
    ends-IsReadied null_held o low high =
        let h_kept : s₀.opts.max_height ≡ s.opts.max_height =
          ap (λ (x : SkipMap A T). x.opts.max_height) made.1 in
        let z : free s₀.arena 0 ≡ false = held-NoneFreed free null_held made.0 in
        (
          ends-IsReady free s₀ s₁ s₂ head tail s₀.opts.max_height he te z
              (ap (λ (o : Options). o.max_height) (te.opts_kept ∙ he.opts_kept))
              (subst (λ (c : Comparator). IsOrder c.cmp) (sym cmp_kept) o) one_level
              (omega (arith, h_kept, low)) (omega (arith, h_kept, high)),
          final-cmp free s₀ s₁ s₂ head tail s₀.opts.max_height he te z ∙ cmp_kept,
          final-opts free s₀ s₁ s₂ head tail s₀.opts.max_height he te z ∙ opts_kept,
          final-meta free s₀ s₁ s₂ head tail s₀.opts.max_height he te z ∙ new_counters,
        )

module _ {A T E : Type 0} (F : Type 0) ⦃t : Trailer T⦄ (free : A → ℕ → Bool) (ar : Arena A E)
    (laws : IsArena free ar) where
  abbrev then_links : (h head tail : ℕ) → M (SkipMap A T) F E (Unit {0})
  then_links h head tail s = ok tt (record (link_ends h 0 head tail s) { head = head; tail = tail })

  abbrev then_tail : (h head : ℕ) → M (SkipMap A T) F E (Unit {0})
  then_tail h head s = and_then (allocate_full_node ar h s) (then_links h head)

  pub set_up-Ends :
      (magic_version : ℕ) (s : SkipMap A T)
      → free s.arena 0 ≡ false
      → IsOrder s.cmp.cmp
      → 1 ≤ s.opts.max_height
      → s.opts.max_height < 32
      → Ends (IsReadied free magic_version s) IsOwn (set_up {F = F} ar magic_version s)
  unfolding set_up
  set_up-Ends magic_version s null_held o low high =
      Ends-and_then (MetaMade free magic_version s) IsOwn (IsReadied free magic_version s)
        (allocate_meta ar magic_version s)
        (λ _ s₀.
          and_then (allocate_full_node ar s₀.opts.max_height s₀) (then_tail s₀.opts.max_height))
        (allocate_meta-Ends F free ar laws magic_version s)
        (λ _ s₀ made.
          let h = s₀.opts.max_height in
          let h_lt : h < 32 =
            omega (arith, high, ap (λ (x : SkipMap A T). x.opts.max_height) made.1) in
          Ends-and_then (λ head s₁. IsEnd free s₀ s₁ head h) IsOwn (IsReadied free magic_version s)
            (allocate_full_node ar h s₀) (then_tail h)
            (allocate_full_node-Ends F free ar laws h h_lt s₀)
            (λ head s₁ he.
              Ends-and_then (λ tail s₂. IsEnd free s₁ s₂ tail h) IsOwn
                (IsReadied free magic_version s) (allocate_full_node ar h s₁) (then_links h head)
                (allocate_full_node-Ends F free ar laws h h_lt s₁)
                (λ tail s₂ te.
                  ends-IsReadied free s s₀ s₁ s₂ magic_version head tail made he te null_held o low
                    high)))
