-- ===== src/Entry.antt =====
-- src/map/entry.rs: what the map hands out. The arena that an entry keeps alive is the map's, and is
-- not a field here.
pub mod Owned
use skl.Prelude.{ℕ, Bool, true, false, Option, none, some}
use skl.Compare.{Bytes, Trailer}
use skl.Node.{Memory, get_key, get_value, get_value_and_trailer}

-- `struct VersionedEntryRef`
pub record VersionedEntryRef (T : Type 0) : Type 0 where
  pub key : Bytes
  pub trailer : T
  pub value : Option Bytes
  pub ptr : ℕ

-- `struct VersionedEntry`
pub record VersionedEntry (T : Type 0) : Type 0 where
  pub trailer : T
  pub ptr : ℕ

module _ {T : Type 0} where
  unfoldable pub is_removed : VersionedEntryRef T → Bool
  is_removed e = elim e.value [ none ↦ true | some _ ↦ false ]

  unfoldable pub to_owned : VersionedEntryRef T → VersionedEntry T
  to_owned e = record { trailer = e.trailer; ptr = e.ptr }

  -- `EntryRef::value`; `none` is its panic
  unfoldable pub entry_value : VersionedEntryRef T → Option Bytes
  entry_value e = e.value

module _ {T : Type 0} ⦃t : Trailer T⦄ (m : Memory T) where
  unfoldable pub from_node : ℕ → VersionedEntryRef T
  unfolding get_key get_value_and_trailer
  from_node nd = record {
    key = get_key m nd;
    trailer = (get_value_and_trailer m nd).0;
    value = (get_value_and_trailer m nd).1;
    ptr = nd;
  }

  -- `VersionedEntry::borrow` reads key and value again
  unfoldable pub borrow : VersionedEntry T → VersionedEntryRef T
  unfolding get_key get_value
  borrow e = record {
    key = get_key m e.ptr;
    trailer = e.trailer;
    value = get_value m e.ptr;
    ptr = e.ptr;
  }

  unfoldable pub entry_version : VersionedEntryRef T → ℕ
  entry_version e = t.version e.trailer
