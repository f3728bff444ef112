-- ===== src/Update.antt =====
-- `new_node` and `update` of src/map.rs. One thread runs here, so that a failed exchange comes only
-- from links that disagree; the branch that answers one is modelled with the rest.
pub mod Link
pub mod Levels
pub mod Loop
pub mod Result
pub mod Sorted
pub mod Insertion
pub mod Lookup
pub mod Contents
pub mod New
pub mod Layout
pub mod Renewed
pub mod Joined
pub mod Absent
pub mod Unchanged
pub mod Inserted
use skl.Prelude.{
  ℕ, zero, suc, ◌+◌, ◌%◌, ◌^◌, ◌==◌, ltb, Bool, true, false, Option, none, some, length,
  if◌then◌else◌,
}
use skl.Encoding.{encode_key_size_and_height}
use skl.Compare.{Bytes, Trailer}
use skl.Node.{next_offset, prev_offset, get_bytes, is_null, remove}
use skl.Types
use skl.Types.{VacantBuffer, Key, is_remove, as_ref}
use skl.Entry.{from_node}
use skl.Run.{ok, err, panicked, out_of_fuel, M, Run, pure, ◌>>=◌, ◌>>◌, on_err}
use skl.Meta.{increase_len, update_max_version, update_min_version, raise_height}
use skl.Height.{random_height}
use skl.Arena.{Arena}
use skl.Splice.{Pointer, Splice, Inserter, find_splice, find_splice_for_level}
use skl.SkipMap.{SkipMap}
use skl.Store.{set_node, write_tower, cas_next_offset, cas_prev_offset}
use skl.Alloc.{
  Filled, filled, aborted, Deallocator, dealloc_all, modify, Allocated, allocate_entry_node,
  allocate_node, allocate_key_node, allocate_value_node,
}
use skl.Upsert.{UpdateOk, on_fail, unless_removed, upsert}

-- the closures of `new_node` that copy a key: `unwrap` and `expect` panic
unfoldable pub copy_key : {F : Type 0} → Bytes → VacantBuffer → Filled F
copy_key key b = elim (Types.write key b).0 [
  | none ↦ filled (Types.write key b).1
  | some e ↦ aborted
]

-- what the rounds of `update` change beside the map
pub record Linking : Type 0 where
  pub k : Key
  pub deallocator : Deallocator
  pub invalid_data_splice : Bool

pub data Linked (T : Type 0) : Type 0 where
  linked : Linking → Linked T
  returned : UpdateOk T → Linked T

-- Another thread that has linked `next` behind `prev`, and not yet `prev` before it, is helped.
unfoldable pub help : {A T : Type 0} (i prev next : ℕ) → SkipMap A T → SkipMap A T
unfolding next_offset prev_offset cas_prev_offset
help i prev next s =
    if prev_offset s.mem next i == prev
    then s
    else if next_offset s.mem prev i == next
    then (cas_prev_offset next i (prev_offset s.mem next i) prev s).1
    else s

module _ {A T E F : Type 0} ⦃t : Trailer T⦄ (ar : Arena A E) where
  unfoldable pub new_node :
      (probabilities : ℕ → ℕ) (rnd : ℕ)
      → Key
      → T
      → (value_size : ℕ) → (VacantBuffer → Filled F)
      → M (SkipMap A T) F E (ℕ × ℕ × Deallocator)
  new_node probabilities rnd key trailer value_size f s =
      let height = random_height probabilities rnd s.opts.max_height in
      let node : M (SkipMap A T) F E Allocated = elim key [
        | Key.occupied bytes ↦
            allocate_entry_node ar height trailer (length bytes % 2 ^ 32) (copy_key bytes)
              value_size f
        | Key.vacant b ↦
            allocate_value_node ar height trailer (b.len % 2 ^ 32) b.offset value_size f
        | Key.pointer offset len ↦ allocate_value_node ar height trailer len offset value_size f
        | Key.remove bytes ↦
            allocate_key_node ar height trailer (length bytes % 2 ^ 32) (copy_key bytes) remove
        | Key.remove_vacant b ↦ allocate_node ar height trailer b.offset (b.len % 2 ^ 32) remove
        | Key.remove_pointer offset len ↦ allocate_node ar height trailer offset len remove
      ] in
      (do
        (nd, deallocator) ← node
        modify (λ s. record s { meta = raise_height height s.meta })
        pure (nd, height, deallocator))
        s

module _ {A T E : Type 0} (ar : Arena A E) (nd : ℕ) where
  -- Another thread has brought the same key in, which the new node then shares. The height that is
  -- unwrapped is always there, since the search puts it into each `found_key`.
  unfoldable pub share_key : Option Pointer → Linking → SkipMap A T → Linking × SkipMap A T
  share_key none g s = (record g { invalid_data_splice = true }, s)
  share_key (some p) g s =
      let s' = on_fail ar g.k s in
      let height : ℕ = elim p.height [ none ↦ 0 | some h ↦ h ] in
      (
        record {
          k = Key.pointer p.offset p.size;
          deallocator = record (g.deallocator) { key = none };
          invalid_data_splice = true;
        },
        set_node nd
            (record (s'.mem.node nd) {
              key_offset = p.offset;
              key_size_and_height = encode_key_size_and_height p.size height;
            })
            s',
      )

module _ {A T E F : Type 0} ⦃t : Trailer T⦄ (ar : Arena A E) (fuel : ℕ) (meanwhile : Option ℕ)
    (trailer : T) (value_size : ℕ) (f : VacantBuffer → Filled F) (upserts : Bool) (nd : ℕ) where
  -- The new node turns out to be in the map: another thread has put it there.
  unfoldable pub lost : Key → Deallocator → (node_ptr : ℕ) → M (SkipMap A T) F E (Linked T)
  lost k d node_ptr s =
      let before = from_node s.mem node_ptr in
      let s' = dealloc_all ar d (on_fail ar k s) in
      if upserts
      then (do
        answer ← upsert ar meanwhile before node_ptr k trailer value_size f
        pure (returned answer))
          s'
      else ok (returned (unless_removed before)) s'

  -- The rounds of the inner `loop` on level `i`.
  unfoldable pub link_level : (rounds i prev next : ℕ) → Linking → M (SkipMap A T) F E (Linked T)
  link_level zero i prev next g s = out_of_fuel
  link_level (suc rounds) i prev next g s =
      let (won, s₁) =
        cas_next_offset prev i next nd (help i prev next (write_tower nd i prev next s)) in
      elim won [
        | true ↦ ok (linked g) (cas_prev_offset next i prev nd s₁).1
        | false ↦
            elim (find_splice_for_level s₁ (t.version trailer) (as_ref (get_bytes s₁.mem) g.k) fuel
              i prev) [
                | none ↦ out_of_fuel
                | some fr ↦ elim fr.found [
                  | true ↦ elim fr.curr [
                    | none ↦ panicked
                    | some node_ptr ↦
                        if i == 0 then lost g.k g.deallocator node_ptr s₁ else panicked
                  ]
                  | false ↦
                      let (g', s₂) = share_key ar nd fr.found_key g s₁ in
                      link_level rounds i fr.splice.prev fr.splice.next g' s₂
                ]
              ]
      ]

  -- The `for` loop over the levels of the node, from the base up.
  unfoldable pub link_levels :
      (spl : ℕ → Splice) → (rounds i : ℕ) → Linking → M (SkipMap A T) F E (Linked T)
  link_levels spl zero i g s = ok (linked g) s
  link_levels spl (suc rounds) i g s =
      let prev = (spl i).prev in
      let next = (spl i).next in
      let one : Run (SkipMap A T) F E (Linked T) =
        if is_null prev
        then if is_null next then link_level fuel i s.head s.tail g s else panicked
        else link_level fuel i prev next g s in
      elim one [
        | ok r s' ↦ elim r [
          | linked g' ↦ link_levels spl rounds (i + 1) g' s'
          | returned answer ↦ ok (returned answer) s'
        ]
        | err e s' ↦ err e s'
        | panicked ↦ panicked
        | out_of_fuel ↦ out_of_fuel
      ]

-- what `update` does with the inserter at the end
unfoldable pub keep_splices : (nd height : ℕ) → Bool → Inserter → Inserter
keep_splices nd height invalid ins = if invalid then record ins { height = 0 } else record ins {
  spl = λ i. if ltb i height then record (ins.spl i) { prev = nd } else ins.spl i;
}

-- the key to store, given what the search found of it
unfoldable pub stored_key : Option Pointer → Key → Key
unfolding is_remove
stored_key none key = key
stored_key (some p) key =
    if is_remove key then Key.remove_pointer p.offset p.size else Key.pointer p.offset p.size

module _ {A T E F : Type 0} ⦃t : Trailer T⦄ (ar : Arena A E) (fuel : ℕ) (meanwhile : Option ℕ)
    (probabilities : ℕ → ℕ) (rnd : ℕ) (trailer : T) (value_size : ℕ) (f : VacantBuffer → Filled F)
    (upserts : Bool) where
  -- The part of `update` that follows a search without a find.
  unfoldable pub insert_new :
      Key → Option Pointer → Inserter → M (SkipMap A T) F E (UpdateOk T × Inserter)
  insert_new key found_key ins = do
    let k = stored_key found_key key
    (nd, height, deallocator) ←
        on_err (on_fail ar k) (new_node ar probabilities rnd k trailer value_size f)
    answer ←
        link_levels ar fuel meanwhile trailer value_size f upserts nd ins.spl height 0
          (record { k = k; deallocator = deallocator; invalid_data_splice = false })
    elim answer [
      | returned r ↦ pure (r, ins)
      | linked g ↦ do
        modify (λ s. record s {
          meta =
              update_min_version (t.version trailer)
                (update_max_version (t.version trailer) (increase_len s.meta));
        })
        pure (UpdateOk.old none, keep_splices nd height g.invalid_data_splice ins)
    ]

  unfoldable pub update : Key → Inserter → M (SkipMap A T) F E (UpdateOk T × Inserter)
  update key ins s =
      elim (find_splice s (t.version trailer) (as_ref (get_bytes s.mem) key) fuel ins true) [
        | none ↦ out_of_fuel
        | some (found, found_key, ptr, ins') ↦
            if found
            then elim ptr [
              | none ↦ panicked
              | some node_ptr ↦
                  let before = from_node s.mem node_ptr in
                  let s' = on_fail ar key s in
                  if upserts
                  then (do
                    answer ← upsert ar meanwhile before node_ptr key trailer value_size f
                    pure (answer, ins'))
                      s'
                  else ok (unless_removed before, ins') s'
            ]
            else insert_new key found_key ins' s
      ]
