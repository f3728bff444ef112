-- ===== src/Tests/Map/Fresh.antt =====
-- A map that is set up in an empty arena, cleared, and filled.
use mathlib.Core.Option
use skl.Prelude.{if◌then◌else◌, ℕ, ◌≡◌, refl, none, some, [], ◌∷◌, eq, arith, List}
use skl.Compare.{u64_trailer, ascend, cmp_bytes}
use skl.Compare.Laws.{cmp_bytes-eq, ascend-IsOrder, entry_order}
use skl.Meta
use skl.Run.{ok, and_then}
use skl.Run.Ends.{Ends}
use skl.Spec.{lookup}
use skl.SkipMap.{SkipMap}
use skl.SkipMap.Get.{get}
use skl.SkipMap.Contents.{value_of}
use skl.Create.{
  new_in, clear, check_capacity, trailer_end, node_end, set_up, allocate_meta, allocate_full_node,
  full,
}
use skl.Node.{align_up}
use skl.Alloc.{allocate}
use skl.Store.{set_node}
use skl.Options
use skl.Encoding.{encode_value_pointer, encode_key_size_and_height}
use skl.Create.Ends.{IsOwn}
use skl.Create.Ready.{IsReady}
use skl.Create.Start.{new_in-IsReady, clear-IsReady}
use skl.Api.Calls.{Put, added, AreNew, SomeBefore, insert_all}
use skl.Api.Fresh.{insert_all-lookup, new_in-insert_all}
use skl.Tests.Map.{two_versions_in}
use skl.Tests.Map.Allocation.{bump, unused, bump-IsArena}

abbrev old : SkipMap ℕ ℕ
old = two_versions_in 512

exact : (a b : List ℕ) → ascend.cmp a b ≡ eq → a ≡ b
unfolding ascend
exact a b e = cmp_bytes-eq a b e

new_in-IsReady_example :
    Ends
      (λ _ s'.
        IsReady ⦃t = u64_trailer⦄ unused s'
        × (s'.cmp ≡ ascend)
        × (s'.opts ≡ old.opts)
        × (s'.meta ≡ Meta.new old.opts.magic_version))
      IsOwn
      (new_in {F = Unit {0}} ⦃t = u64_trailer⦄ bump 512 old.mem (λ _. Meta.new 0) ascend old.opts)
unfolding two_versions_in
new_in-IsReady_example =
    new_in-IsReady (Unit {0}) ⦃t = u64_trailer⦄ unused bump bump-IsArena 512 old.mem
      (λ _. Meta.new 0) ascend old.opts refl refl ascend-IsOrder (omega arith) (omega arith)

clear-IsReady_example :
    Ends
      (λ _ s'.
        IsReady ⦃t = u64_trailer⦄ unused s'
        × (s'.cmp ≡ old.cmp)
        × (s'.opts ≡ old.opts)
        × (s'.meta ≡ Meta.new (if old.opts.unify then old.meta else old.meta).magic_version))
      IsOwn
      (clear {F = Unit {0}} ⦃t = u64_trailer⦄ bump (λ m. m) (λ m. m) old)
unfolding two_versions_in
clear-IsReady_example =
    clear-IsReady (Unit {0}) ⦃t = u64_trailer⦄ unused bump bump-IsArena (λ m. m) (λ m. m) old refl
      ascend-IsOrder (omega arith) (omega arith)

-- two keys, one of them in two versions
abbrev three : List (Put ℕ)
three =
    record { rnd = 1; trailer = 5; key = 98 ∷ []; value = 1 ∷ 2 ∷ [] }
    ∷ record { rnd = 7; trailer = 2; key = 97 ∷ []; value = 3 ∷ [] }
    ∷ record { rnd = 0; trailer = 6; key = 98 ∷ []; value = [] }
    ∷ []

three-AreNew : AreNew ⦃t = u64_trailer⦄ ascend three []
unfolding entry_order ascend cmp_bytes
three-AreNew = (
  omega arith,
  omega arith,
  tt,
  (
    omega arith,
    omega arith,
    ((λ e. cc), tt),
    (omega arith, omega arith, ((λ e. cc), ((λ e. cc), tt)), tt),
  ),
)

new_in-insert_all_example :
    Ends
      (λ r s'.
        Option.map
          (value_of ⦃t = u64_trailer⦄ s' 5 (98 ∷ []))
          (get ⦃t = u64_trailer⦄ s' 5 5 (98 ∷ []))
        ≡ some (lookup ascend 5 (98 ∷ []) (added ⦃t = u64_trailer⦄ three [])))
      (λ e s'. Unit {0})
      (and_then
        (new_in ⦃t = u64_trailer⦄ bump 512 old.mem (λ _. Meta.new 0) ascend old.opts)
        (λ _. insert_all {F = Unit {0}} ⦃t = u64_trailer⦄ bump 3 none (λ _. 0) three))
unfolding two_versions_in
new_in-insert_all_example =
    new_in-insert_all (Unit {0}) ⦃t = u64_trailer⦄ unused bump bump-IsArena
      (λ z. absurd (omega arith)) 2 none (λ _. 0) ascend exact old.opts three 512 old.mem
      (λ _. Meta.new 0) refl refl ascend-IsOrder (omega arith) (omega arith) three-AreNew
      (omega arith) 5 (98 ∷ []) 5 (omega arith)

-- the map that `new_in` makes
abbrev opened : SkipMap ℕ ℕ
unfolding two_versions_in new_in
opened =
    elim (new_in {F = Unit {0}} ⦃t = u64_trailer⦄ bump 512 old.mem (λ _. Meta.new 0) ascend
      old.opts) [ ok _ s ↦ s | _ ↦ old ]

opened-IsReady :
    IsReady ⦃t = u64_trailer⦄ unused opened × (opened.cmp ≡ ascend) × (opened.opts ≡ old.opts)
unfolding opened new_in check_capacity trailer_end node_end align_up set_up allocate_meta allocate
    allocate_full_node set_node full encode_value_pointer encode_key_size_and_height two_versions_in
    Options.new
opened-IsReady = let r = new_in-IsReady_example in (r.0, r.1, r.2)

insert_all-lookup_example :
    Ends
      (λ r s'.
        Option.map
          (value_of ⦃t = u64_trailer⦄ s' 5 (98 ∷ []))
          (get ⦃t = u64_trailer⦄ s' 5 5 (98 ∷ []))
        ≡ some (lookup ascend 5 (98 ∷ []) (added ⦃t = u64_trailer⦄ three [])))
      (λ e s'.
        SomeBefore ⦃t = u64_trailer⦄
          (λ es.
            Option.map
              (value_of ⦃t = u64_trailer⦄ s' 5 (98 ∷ []))
              (get ⦃t = u64_trailer⦄ s' 5 5 (98 ∷ []))
            ≡ some (lookup ascend 5 (98 ∷ []) es))
          three
          [])
      (insert_all {F = Unit {0}} ⦃t = u64_trailer⦄ bump 3 none (λ _. 0) three opened)
unfolding two_versions_in
insert_all-lookup_example =
    insert_all-lookup (Unit {0}) ⦃t = u64_trailer⦄ unused bump bump-IsArena
      (λ z. absurd (omega arith)) 2 none (λ _. 0) ascend exact old.opts three opened
      opened-IsReady.0 opened-IsReady.1 opened-IsReady.2 three-AreNew (omega arith) 5 (98 ∷ []) 5
      (omega arith)
