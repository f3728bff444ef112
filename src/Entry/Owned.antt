-- ===== src/Entry/Owned.antt =====
-- `Entry` and `EntryRef` of src/map/entry.rs, the entries whose value is there, and what the owned
-- entries read. An option of a value is `none` where the code panics.
use skl.Prelude.{ℕ, Option}
use skl.Compare.{Bytes, Trailer}
use skl.Node.{Memory, get_key, get_value}
use skl.Entry.{VersionedEntryRef, VersionedEntry, to_owned, entry_value, borrow, entry_version}

-- `struct EntryRef` and `struct Entry`
pub record EntryRef (T : Type 0) : Type 0 where
  pub inner : VersionedEntryRef T

pub record Entry (T : Type 0) : Type 0 where
  pub inner : VersionedEntry T

module _ {T : Type 0} where
  unfoldable pub ref_key : EntryRef T → Bytes
  ref_key e = e.inner.key

  unfoldable pub ref_value : EntryRef T → Option Bytes
  unfolding entry_value
  ref_value e = entry_value e.inner

  unfoldable pub ref_trailer : EntryRef T → T
  ref_trailer e = e.inner.trailer

  unfoldable pub ref_to_owned : EntryRef T → Entry T
  unfolding to_owned
  ref_to_owned e = record { inner = to_owned e.inner }

module _ {T : Type 0} ⦃t : Trailer T⦄ (m : Memory T) where
  -- `VersionedEntry::key` and `VersionedEntry::value`
  unfoldable pub owned_key : VersionedEntry T → Bytes
  unfolding get_key
  owned_key e = get_key m e.ptr

  unfoldable pub owned_value : VersionedEntry T → Option Bytes
  unfolding get_value
  owned_value e = get_value m e.ptr

  unfoldable pub entry_borrow : Entry T → EntryRef T
  unfolding borrow
  entry_borrow e = record { inner = borrow m e.inner }

  unfoldable pub present_value : Entry T → Option Bytes
  unfolding owned_value
  present_value e = owned_value e.inner

  unfoldable pub ref_version : EntryRef T → ℕ
  unfolding entry_version
  ref_version e = entry_version m e.inner
