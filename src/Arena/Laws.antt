-- ===== src/Arena/Laws.antt =====
-- What the map relies on of the arena: which addresses are free, and that an allocation takes its
-- region out of them. `free` stands for the arena's own account of its memory.
use skl.Prelude.{ℕ, ◌+◌, ◌≤◌, ◌<◌, ◌^◌, ◌≡◌, ◌⊎◌, Bool, true}
use skl.Node.{align_up}
use skl.Arena.{Region, Alloc, Arena}

module _ {A : Type 0} (free : A → ℕ → Bool) where
  -- Between the two states a region has been handed out, all of which was free; nothing else has
  -- become free.
  pub record IsTaken (a a' : A) (offset size : ℕ) : Type 0 where
    pub was_free : (x : ℕ) → offset ≤ x → x < offset + size → free a x ≡ true
    pub still_free : (x : ℕ) → free a' x ≡ true → free a x ≡ true
    pub not_twice : (x : ℕ) → free a' x ≡ true → (x < offset) ⊎ (offset + size ≤ x)
    pub offset_lt : offset < 2 ^ 32

  -- Nothing is free afterwards that was not free before.
  abbrev pub NoneFreed : A → A → Type 0
  NoneFreed a a' = (x : ℕ) → free a' x ≡ true → free a x ≡ true

  module _ {E : Type 0} (ar : Arena A E) where
    -- Offsets are of 32 bits, the bytes asked for are those given, and an aligned region begins at a
    -- multiple of the alignment. A refused request frees nothing, and a handle that is dropped gives
    -- back no more than it was given.
    pub record IsArena : Type 0 where
      pub bytes :
          (n : ℕ) (a : A) (r : Region) (a' : A)
          → ar.alloc_bytes n a ≡ Alloc.allocated r a'
          → IsTaken a a' r.offset n × (r.capacity ≡ n)
      pub aligned :
          (size align extra : ℕ) (a : A) (r : Region) (a' : A)
          → ar.alloc_aligned_bytes size align extra a ≡ Alloc.allocated r a'
          → IsTaken a a' r.offset (size + extra) × (align_up align r.offset ≡ r.offset)
      pub value :
          (size align : ℕ) (a : A) (r : Region) (a' : A)
          → ar.alloc size align a ≡ Alloc.allocated r a'
          → IsTaken a a' r.offset size
      pub bytes_refused :
          (n : ℕ) (a : A) (e : E) (a' : A)
          → ar.alloc_bytes n a ≡ Alloc.refused e a'
          → NoneFreed a a'
      pub aligned_refused :
          (size align extra : ℕ) (a : A) (e : E) (a' : A)
          → ar.alloc_aligned_bytes size align extra a ≡ Alloc.refused e a'
          → NoneFreed a a'
      pub bytes_released :
          (n : ℕ) (a : A) (r : Region) (a' a'' : A)
          → ar.alloc_bytes n a ≡ Alloc.allocated r a'
          → NoneFreed a' a''
          → NoneFreed a (ar.release r a'')
      pub aligned_released :
          (size align extra : ℕ) (a : A) (r : Region) (a' a'' : A)
          → ar.alloc_aligned_bytes size align extra a ≡ Alloc.allocated r a'
          → NoneFreed a' a''
          → NoneFreed a (ar.release r a'')
