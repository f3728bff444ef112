-- ===== src/Store/Reads.antt =====
-- What is read of the arena's bytes after a write.
use skl.Prelude.{
  ℕ, zero, suc, ◌+◌, ◌≤◌, ◌<◌, ◌≡◌, ◌⊎◌, inl, inr, refl, ap, ◌∙◌, [], ◌∷◌, arith, length,
}
use skl.Compare.{Bytes}
use skl.Node.{read, update}
use skl.Store.{write_bytes}

pub length-read : (byte : ℕ → ℕ) (offset len : ℕ) → length (read byte offset len) ≡ len
unfolding read
length-read byte offset zero = refl
length-read byte offset (suc len) = ap suc (length-read byte (offset + 1) len)

-- Two memories that agree on a segment read the same there.
pub read-same :
    (byte byte' : ℕ → ℕ) (offset len : ℕ)
    → ((x : ℕ) → offset ≤ x → x < offset + len → byte' x ≡ byte x)
    → read byte' offset len ≡ read byte offset len
unfolding read
read-same byte byte' offset zero h = refl
read-same byte byte' offset (suc len) h =
    let rest = read-same byte byte' (offset + 1) len (λ x lo hi. h x (omega arith) (omega arith)) in
    rw (h offset (omega arith) (omega arith), rest) refl

-- Outside of what is written the bytes stay.
pub write_bytes-outside :
    (byte : ℕ → ℕ) (offset : ℕ) (bs : Bytes) (x : ℕ)
    → (x < offset) ⊎ (offset + length bs ≤ x)
    → write_bytes byte offset bs x ≡ byte x
unfolding write_bytes
write_bytes-outside byte offset [] x o = refl
write_bytes-outside byte offset (b ∷ bs) x o = ground (
  arith,
  write_bytes-outside byte (offset + 1) bs x
      (elim o [ inl a ↦ inl (omega arith) | inr a ↦ inr (omega arith) ]),
)

pub read-write_bytes :
    (byte : ℕ → ℕ) (offset : ℕ) (bs : Bytes)
    → read (write_bytes byte offset bs) offset (length bs) ≡ bs
unfolding read write_bytes update
read-write_bytes byte offset [] = refl
read-write_bytes byte offset (b ∷ bs) =
    let rest =
      read-same (write_bytes byte (offset + 1) bs) (write_bytes byte offset (b ∷ bs)) (offset + 1)
        (length bs) (λ x lo hi. ground arith)
      ∙ read-write_bytes byte (offset + 1) bs in
    ground (arith, rest)
