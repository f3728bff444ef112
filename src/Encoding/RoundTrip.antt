-- ===== src/Encoding/RoundTrip.antt =====
-- Packed words are read back as they were written.
use skl.Prelude.{ℕ, ◌*◌, ◌%◌, ◌^◌, ◌<◌, ◌≡◌, arith}
use skl.Encoding.Bits.{or_shifted}
use skl.Encoding.{
  encode_value_pointer, decode_value_pointer, encode_key_size_and_height,
  decode_key_size_and_height,
}

-- A value pointer of a u32 offset and a u32 length decodes to that offset and that length.
pub decode-encode_value_pointer :
    (offset val_size : ℕ)
    → offset < 2 ^ 32
    → val_size < 2 ^ 32
    → decode_value_pointer (encode_value_pointer offset val_size) ≡ (offset, val_size)
unfolding decode_value_pointer encode_value_pointer
decode-encode_value_pointer offset val_size ho hv =
    let fits : val_size * 2 ^ 32 % 2 ^ 64 ≡ val_size * 2 ^ 32 = omega arith in
    let WithNode = or_shifted 32 val_size offset ho in rw (fits, WithNode) (ground arith)

-- A key size below 2^27 and a height below 2^5 are both read back.
pub decode-encode_key_size_and_height :
    (key_size height : ℕ)
    → key_size < 2 ^ 27
    → height < 2 ^ 5
    → decode_key_size_and_height (encode_key_size_and_height key_size height) ≡ (key_size, height)
unfolding decode_key_size_and_height encode_key_size_and_height
decode-encode_key_size_and_height key_size height hk hh =
    let fits : key_size * 2 ^ 5 % 2 ^ 32 ≡ key_size * 2 ^ 5 = omega arith in
    let WithNode = or_shifted 5 key_size height hh in rw (fits, WithNode) (ground arith)
