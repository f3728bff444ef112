-- ===== src/Options.antt =====
-- src/options.rs, but for the freelist kind, which only the allocator reads.
use skl.Prelude.{ℕ, ◌-◌, ◌^◌, Bool, false}

-- `struct Options`; the key size is a u27 and the height a u5
pub record Options : Type 0 where
  pub max_value_size : ℕ
  pub max_key_size : ℕ
  pub max_height : ℕ
  pub magic_version : ℕ
  pub capacity : ℕ
  pub unify : Bool

-- `Options::new`
unfoldable pub new : Options
new = record {
  max_value_size = 2 ^ 32 - 1;
  max_key_size = 2 ^ 27 - 1;
  max_height = 20;
  magic_version = 0;
  capacity = 1024;
  unify = false;
}

-- the setters
unfoldable pub with_magic_version : ℕ → Options → Options
with_magic_version magic_version o = record o { magic_version = magic_version }

unfoldable pub with_unify : Bool → Options → Options
with_unify unify o = record o { unify = unify }

unfoldable pub with_max_value_size : ℕ → Options → Options
with_max_value_size size o = record o { max_value_size = size }

unfoldable pub with_max_key_size : ℕ → Options → Options
with_max_key_size size o = record o { max_key_size = size }

unfoldable pub with_max_height : ℕ → Options → Options
with_max_height height o = record o { max_height = height }

unfoldable pub with_capacity : ℕ → Options → Options
with_capacity capacity o = record o { capacity = capacity }
