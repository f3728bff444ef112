-- ===== src/Encoding.antt =====
-- The packed words of a node (src/map.rs): the value pointer, a u64 of a u32 offset and a u32
-- length, and the u32 of a 27-bit key size and a 5-bit height.
mod Bits
pub mod RoundTrip
use Prim.Native.Nat.{bit_or, bit_and}
use skl.Prelude.{ℕ, ◌+◌, ◌*◌, ◌/◌, ◌%◌, ◌^◌}

-- `(val_size as u64) << 32 | offset as u64`
unfoldable pub encode_value_pointer : ℕ → ℕ → ℕ
encode_value_pointer offset val_size = bit_or (val_size * 2 ^ 32 % 2 ^ 64) offset

-- `value as u32` keeps the low word, `(value >> 32) as u32` is the high one.
unfoldable pub decode_value_pointer : ℕ → ℕ × ℕ
decode_value_pointer value = (value % 2 ^ 32, value / 2 ^ 32 % 2 ^ 32)

-- `key_size << 5 | height as u32`, on u32
unfoldable pub encode_key_size_and_height : ℕ → ℕ → ℕ
encode_key_size_and_height key_size height = bit_or (key_size * 2 ^ 5 % 2 ^ 32) height

-- `size >> 5` and `(size & 0b11111) as u8`, whose mask keeps the remainder by 32
unfoldable pub decode_key_size_and_height : ℕ → ℕ × ℕ
decode_key_size_and_height size = (size / 2 ^ 5, size % 2 ^ 5)
