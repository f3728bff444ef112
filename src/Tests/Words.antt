-- ===== src/Tests/Words.antt =====
-- The theorems on words, counters, buffers and heights at concrete inputs.
use skl.Prelude.{
  ℕ, ◌≤◌, ◌<◌, ◌≡◌, ◌⊎◌, refl, none, some, true, false, [], ◌∷◌, List, ◌++◌, length, arith, leb,
  if◌then◌else◌,
}
use skl.Encoding.{
  encode_value_pointer, decode_value_pointer, encode_key_size_and_height,
  decode_key_size_and_height,
}
use skl.Encoding.RoundTrip.{decode-encode_value_pointer, decode-encode_key_size_and_height}
use skl.Compare.{Bytes}
use skl.Meta.{Attempt, max_loop, height_loop}
use skl.Meta.Bounds.{RaisedTo, max_loop-RaisedTo, height_loop-RaisedTo}
use skl.Height.{random_height}
use skl.Height.Bounds.{IsHeight, random_height-IsHeight}
use skl.Types.{VacantBuffer, contents, fill, write, remaining}
use skl.Types.Buffer.{IsBuffer, write_lem, fill_keeps}

decode-encode_value_pointer_example :
    decode_value_pointer (encode_value_pointer 4096 77) ≡ (4096, 77)
decode-encode_value_pointer_example =
    decode-encode_value_pointer 4096 77 (omega arith) (omega arith)

decode-encode_key_size_and_height_example :
    decode_key_size_and_height (encode_key_size_and_height 1000 20) ≡ (1000, 20)
decode-encode_key_size_and_height_example =
    decode-encode_key_size_and_height 1000 20 (omega arith) (omega arith)

-- Another thread has stored 3 between the load and the first exchange, and the second one fails.
abbrev attempts : List Attempt
attempts =
    record { cell = 3; spurious = false }
    ∷ record { cell = 3; spurious = true }
    ∷ record { cell = 3; spurious = false }
    ∷ []

max_loop-RaisedTo_example : RaisedTo 7 (max_loop 7 0 attempts)
max_loop-RaisedTo_example = max_loop-RaisedTo 7 0 attempts

height_loop-RaisedTo_example : RaisedTo 7 (height_loop 7 1 attempts)
height_loop-RaisedTo_example = height_loop-RaisedTo 7 1 attempts

abbrev halves : ℕ → ℕ
halves l = if leb l 1 then 100 else if leb l 2 then 50 else 25

random_height-IsHeight_example : IsHeight halves 40 20 1 (random_height halves 40 20)
random_height-IsHeight_example = random_height-IsHeight halves 40 20

abbrev buffer : VacantBuffer
buffer = record { value = 1 ∷ 2 ∷ 3 ∷ []; len = 1; cap = 3; offset = 64 }

buffer-IsBuffer : IsBuffer buffer
buffer-IsBuffer = record { sized = refl; fits = omega arith }

abbrev two : Bytes
two = 8 ∷ 9 ∷ []

write_lem_example :
    IsBuffer (write two buffer).1
    × (((length two ≤ remaining buffer)
          × ((write two buffer).0 ≡ none)
          × (contents (write two buffer).1 ≡ contents buffer ++ two))
        ⊎ ((remaining buffer < length two)
            × ((write two buffer).0
                ≡ some (record { remaining = remaining buffer; write = length two }))
            × ((write two buffer).1 ≡ buffer)))
write_lem_example = write_lem two buffer buffer-IsBuffer

fill_keeps_example :
    ((fill 0 buffer).value ≡ buffer.value) × (contents (fill 0 buffer) ≡ buffer.value)
fill_keeps_example = fill_keeps 0 buffer buffer-IsBuffer
