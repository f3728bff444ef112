-- ===== src/Spec.antt =====
-- What the map promises, without nodes, levels or an order: a collection of entries, each with a key,
-- a version and a value or a tombstone, and what a reader at a version gets of it.
use skl.Prelude.{
  ℕ, leb, Bool, true, false, ◌&&◌, Option, none, some, List, [], ◌∷◌, Ordering, lt, eq, gt,
  if◌then◌else◌,
}
use skl.Compare.{Bytes, Comparator}

pub record Item : Type 0 where
  pub key : Bytes
  pub version : ℕ
  pub value : Option Bytes

abbrev pub is_eq : Ordering → Bool
is_eq o = elim o [ lt ↦ false | eq ↦ true | gt ↦ false ]

-- a reader of `key` at version `v` may be given the entry
abbrev pub readable : Comparator → ℕ → Bytes → Item → Bool
readable c v key e = is_eq (c.cmp key e.key) && leb e.version v

abbrev pub newer : Item → Option Item → Item
newer e none = e
newer e (some r) = if leb r.version e.version then e else r

-- the entry with the greatest version among those that the reader may be given
unfoldable pub latest : Comparator → ℕ → Bytes → List Item → Option Item
latest c v key [] = none
latest c v key (e ∷ es) =
    if readable c v key e then some (newer e (latest c v key es)) else latest c v key es

-- the value of that entry; a tombstone hides the older ones
unfoldable pub lookup : Comparator → ℕ → Bytes → List Item → Option Bytes
unfolding latest
lookup c v key es = elim (latest c v key es) [ none ↦ none | some e ↦ e.value ]
