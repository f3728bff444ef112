-- ===== src/Arena.antt =====
-- What src/map.rs calls of the arena, which is the crate `rarena_allocator`: a parameter of the
-- model, with `A` for the arena's state and `E` for its errors.
pub mod Laws
use skl.Prelude.{ℕ, Bool, Option}

-- what `BytesRefMut` and `RefMut` say of an allocation
pub record Region : Type 0 where
  pub offset : ℕ
  pub capacity : ℕ

pub data Alloc (A E : Type 0) : Type 0 where
  allocated : Region → A → Alloc A E
  refused : E → A → Alloc A E

pub record Arena (A E : Type 0) : Type 0 where
  pub read_only : A → Bool
  pub read_only_error : E
  pub alloc_bytes : ℕ → A → Alloc A E
  -- a value of the given size and alignment, and more bytes behind it
  pub alloc_aligned_bytes : (size align extra : ℕ) → A → Alloc A E
  pub alloc : (size align : ℕ) → A → Alloc A E
  -- whether the segment could be taken back
  pub dealloc : (offset size : ℕ) → A → Bool × A
  -- a handle is dropped that has not been detached
  pub release : Region → A → A
  pub increase_discarded : ℕ → A → A
  pub data_offset : A → ℕ
  pub capacity : A → ℕ
  pub allocated : A → ℕ
  pub clear : A → Option E × A
  pub magic_version : A → ℕ
  pub remaining : A → ℕ
  pub refs : A → ℕ
  pub discarded : A → ℕ

-- what `ArenaOptions` is given, but for the freelist kind; `none` where the caller leaves the default
pub record ArenaOptions : Type 0 where
  pub capacity : Option ℕ
  pub maximum_alignment : ℕ
  pub unify : Option Bool
  pub magic_version : ℕ
