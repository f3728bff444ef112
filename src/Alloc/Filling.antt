-- ===== src/Alloc/Filling.antt =====
-- Closures that fill the whole buffer which they are given.
use skl.Prelude.{ℕ, ◌+◌, ◌≡◌, refl, none, [], ◌++◌, arith, length}
use mathlib.Core.List.{append-nil}
use skl.Compare.{Bytes}
use skl.Types
use skl.Types.{VacantBuffer}
use skl.Types.Buffer.{drop_all}
use skl.Node.{get_bytes, read}
use skl.Run.{ok}
use skl.Arena.{Arena}
use skl.Splice.{Pointer, pointer}
use skl.SkipMap.{SkipMap}
use skl.Store.{set_bytes}
use skl.Store.Reads.{length-read}
use skl.Alloc.{Filled, filled, fill_vacant}
use skl.Update.{copy_key}
use skl.Api.{copy}

-- the buffer with these bytes in all of it
abbrev pub full_of : (offset : ℕ) → Bytes → VacantBuffer
full_of offset bs = record { value = bs; len = length bs; cap = length bs; offset = offset }

abbrev pub Fills : {F : Type 0} → (VacantBuffer → Filled F) → Bytes → Type 0
Fills f bs =
    (offset : ℕ) (old : Bytes)
    → length old ≡ length bs
    → f (Types.new (length bs) offset old) ≡ filled (full_of offset bs)

write-full :
    (bs old : Bytes) (offset : ℕ)
    → length old ≡ length bs
    → Types.write bs (Types.new (length bs) offset old) ≡ (none, full_of offset bs)
unfolding Types.write Types.overwrite Types.new Types.remaining
write-full bs old offset h =
    let none_left = (drop_all (0 + length bs) old (omega (arith, h))).1 in
    let whole : bs ++ [] ≡ bs = append-nil bs in ground (arith, none_left, whole)

pub copy_key-Fills : {F : Type 0} (bs : Bytes) → Fills {F = F} (copy_key bs) bs
unfolding copy_key
copy_key-Fills bs offset old h = ground (arith, write-full bs old offset h)

pub copy-Fills : {F : Type 0} (bs : Bytes) → Fills {F = F} (copy bs) bs
unfolding copy
copy-Fills bs offset old h = rw (write-full bs old offset h) refl

module _ {A T E F : Type 0} (ar : Arena A E) (f : VacantBuffer → Filled F) (bs : Bytes)
    (fills : Fills f bs) where
  -- A buffer that is filled to its end is written, and nothing is given back.
  pub fill_vacant-full :
      (whole : Pointer) (offset : ℕ) (s : SkipMap A T)
      → fill_vacant {E = E} ar whole (pointer offset (length bs)) f s
        ≡ ok (length bs, whole) (set_bytes offset bs s)
  unfolding fill_vacant Types.remaining get_bytes
  fill_vacant-full whole offset s =
      let full =
        fills offset (read s.mem.byte offset (length bs))
          (length-read s.mem.byte offset (length bs)) in
      ground (arith, full)
