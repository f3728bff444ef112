-- ===== src/Types.antt =====
-- src/types.rs: the buffers that callers fill, and the forms in which a key reaches an update.
pub mod Buffer
use Prim.Native.Nat.{min}
use mathlib.Core.List.{map}
use skl.Prelude.{
  ℕ, ◌+◌, ◌-◌, ◌==◌, ltb, Bool, true, false, Option, none, some, List, [], ◌++◌, length, take, drop,
  if◌then◌else◌,
}
use skl.Compare.{Bytes, bytes_eq}

-- `struct TooLarge`
pub record TooLarge : Type 0 where
  pub remaining : ℕ
  pub write : ℕ

-- `struct VacantBuffer`; `value` is the slice of the arena that it borrows
pub record VacantBuffer : Type 0 where
  pub value : Bytes
  pub len : ℕ
  pub cap : ℕ
  pub offset : ℕ

unfoldable pub new : ℕ → ℕ → Bytes → VacantBuffer
new cap offset value = record { value = value; len = 0; cap = cap; offset = offset }

unfoldable pub capacity : VacantBuffer → ℕ
capacity b = b.cap

unfoldable pub is_empty : VacantBuffer → Bool
is_empty b = b.len == 0

unfoldable pub remaining : VacantBuffer → ℕ
remaining b = b.cap - b.len

-- `&self.value[..self.len]`
unfoldable pub contents : VacantBuffer → Bytes
contents b = take b.len b.value

-- the comparisons of a buffer with a slice or an array
unfoldable pub buffer_eq : VacantBuffer → Bytes → Bool
unfolding contents bytes_eq
buffer_eq b other = bytes_eq (contents b) other

unfoldable pub eq_buffer : Bytes → VacantBuffer → Bool
unfolding contents bytes_eq
eq_buffer other b = bytes_eq other (contents b)

-- `fill` sets the length first, and then fills what lies behind it.
unfoldable pub fill : ℕ → VacantBuffer → VacantBuffer
fill byte b =
    let len = b.cap in
    record b { value = take len b.value ++ map (λ _. byte) (drop len b.value); len = len }

-- the slice of `self.value` at `self.len`, overwritten
unfoldable pub overwrite : Bytes → VacantBuffer → VacantBuffer
overwrite bytes b = record b {
  value = take b.len b.value ++ (bytes ++ drop (b.len + length bytes) b.value);
  len = b.len + length bytes;
}

-- `none` is the panic on a slice that is longer than the space behind `self.len`.
unfoldable pub write_unchecked : Bytes → VacantBuffer → Option VacantBuffer
unfolding overwrite
write_unchecked bytes b =
    if ltb (length b.value) (b.len + length bytes) then none else some (overwrite bytes b)

-- The error, if there is one, and the buffer.
unfoldable pub write : Bytes → VacantBuffer → Option TooLarge × VacantBuffer
unfolding overwrite remaining
write bytes b =
    if ltb (remaining b) (length bytes)
    then (some (record { remaining = remaining b; write = length bytes }), b)
    else (none, overwrite bytes b)

-- `enum Key`; the arena of a pointer is the map's
pub data Key : Type 0 where
  occupied : Bytes → Key
  vacant : VacantBuffer → Key
  pointer : (offset len : ℕ) → Key
  remove : Bytes → Key
  remove_vacant : VacantBuffer → Key
  remove_pointer : (offset len : ℕ) → Key

unfoldable pub is_remove : Key → Bool
is_remove (Key.remove key) = true
is_remove (Key.remove_vacant b) = true
is_remove (Key.remove_pointer offset len) = true
is_remove _ = false

-- `as_ref`, given the reader of the arena's bytes
unfoldable pub as_ref : (ℕ → ℕ → Bytes) → Key → Bytes
unfolding contents
as_ref get_bytes (Key.occupied key) = key
as_ref get_bytes (Key.vacant b) = contents b
as_ref get_bytes (Key.pointer offset len) = get_bytes offset len
as_ref get_bytes (Key.remove key) = key
as_ref get_bytes (Key.remove_vacant b) = contents b
as_ref get_bytes (Key.remove_pointer offset len) = get_bytes offset len
