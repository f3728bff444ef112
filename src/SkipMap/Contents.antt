-- ===== src/SkipMap/Contents.antt =====
-- The map as a collection of entries, and `get` as a lookup in it.
use mathlib.Core.Option
use skl.Prelude.{
  ℕ, ◌+◌, ◌≤◌, ◌≡◌, refl, ap, ◌∙◌, Option, none, some, List, [], ◌∷◌, lt, eq, arith, length,
  Bool-cases, inl, inr,
}
use skl.Compare.{Bytes, Trailer}
use skl.Compare.Laws.{IsOrder, entry_order}
use skl.Node.{get_key, version}
use skl.Node.Reads.{read_value, get_value_and_trailer_parts}
use skl.Entry.{VersionedEntryRef}
use skl.Spec.{Item, readable, newer, latest, lookup}
use skl.SkipMap.{SkipMap, entry}
use skl.SkipMap.Shape.{All}
use skl.SkipMap.Invariant.{IsSkipList, Sorted}
use skl.SkipMap.Get.{present, get}
use skl.SkipMap.Get.Newest.{newest, get-newest}

module _ {A T : Type 0} ⦃t : Trailer T⦄ (s : SkipMap A T) where
  abbrev pub item : ℕ → Item
  item p = record { key = get_key s.mem p; version = version s.mem p; value = read_value s.mem p }

  unfoldable pub contents : List ℕ → List Item
  contents [] = []
  contents (p ∷ ps) = item p ∷ contents ps

abbrev AtMost : ℕ → Option Item → Type 0
AtMost n none = Unit
AtMost n (some r) = r.version ≤ n

newer-AtMost :
    (n : ℕ) (e : Item) (o : Option Item) → e.version ≤ n → AtMost n o → (newer e o).version ≤ n
newer-AtMost n e none h k = h
newer-AtMost n e (some r) h k = ground arith

newer_first : (e : Item) (o : Option Item) → AtMost e.version o → newer e o ≡ e
newer_first e none k = refl
newer_first e (some r) k = ground arith

module _ {A T : Type 0} ⦃t : Trailer T⦄ (s : SkipMap A T) (v : ℕ) (key : Bytes) where
  latest-AtMost :
      (n : ℕ) (ps : List ℕ)
      → All (λ q. s.cmp.cmp key (get_key s.mem q) ≡ eq → version s.mem q ≤ n) ps
      → AtMost n (latest s.cmp v key (contents s ps))
  unfolding latest contents
  latest-AtMost n [] a = tt
  latest-AtMost n (q ∷ qs) a =
      let rest = latest-AtMost n qs a.1 in
      elim (Bool-cases (readable s.cmp v key (item s q))) [
        | inl sees ↦
            let same : s.cmp.cmp key (get_key s.mem q) ≡ eq = ground arith in
            rw sees (newer-AtMost n (item s q) (latest s.cmp v key (contents s qs)) (a.0 same) rest)
        | inr hides ↦ rw hides rest
      ]

  -- Behind an entry of the key there are only older ones of it.
  older :
      (p : ℕ) (ps : List ℕ)
      → IsOrder s.cmp.cmp
      → All (λ q. entry_order s.cmp (entry s p) (entry s q) ≡ lt) ps
      → s.cmp.cmp key (get_key s.mem p) ≡ eq
      → All (λ q. s.cmp.cmp key (get_key s.mem q) ≡ eq → version s.mem q ≤ version s.mem p) ps
  unfolding entry entry_order
  older p [] o h k = tt
  older p (q ∷ qs) o h k = (
    λ e. ground (arith, h.0, o.eq_left key (get_key s.mem p) (get_key s.mem q)),
    older p qs o h.1 k,
  )

  latest-newest :
      (ps : List ℕ)
      → IsOrder s.cmp.cmp
      → Sorted s ps
      → latest s.cmp v key (contents s ps) ≡ Option.map (item s) (newest s v key ps)
  unfolding latest contents newest
  latest-newest [] o h = refl
  latest-newest (p ∷ ps) o h =
      let rest = latest-newest ps o h.1 in
      elim (Bool-cases (readable s.cmp v key (item s p))) [
        | inl sees ↦
            let same : s.cmp.cmp key (get_key s.mem p) ≡ eq = ground arith in
            let first =
              newer_first (item s p) (latest s.cmp v key (contents s ps))
                (latest-AtMost (version s.mem p) ps (older p ps o h.0 same)) in
            ground (arith, first, sees)
        | inr hides ↦ ground (arith, rest, hides)
      ]

  abbrev pub value_of : Option (VersionedEntryRef T) → Option Bytes
  value_of e = elim e [ none ↦ none | some e ↦ e.value ]

  value_of-present : (p : ℕ) → value_of (present s p) ≡ read_value s.mem p
  unfolding present
  value_of-present p = ground (arith, (get_value_and_trailer_parts s.mem p).1)

  -- `get` refines the lookup in the collection of a well-formed map's entries: with fuel for its nodes
  -- and levels it gives the value of the entry of the key with the greatest version that is at most the
  -- reader's, and nothing where there is none or that entry is a tombstone.
  pub get-lookup :
      {levels : ℕ → List ℕ} (fuel : ℕ)
      → IsSkipList s levels
      → s.meta.height + length (levels 0) ≤ fuel
      → Option.map value_of (get s fuel v key) ≡ some (lookup s.cmp v key (contents s (levels 0)))
  unfolding lookup
  get-lookup {levels} fuel is h =
      let found = newest s v key (levels 0) in
      ap (Option.map value_of) (get-newest s v key fuel is h)
      ∙ ap some (by_newest found (latest-newest (levels 0) is.ordered is.sorted))
    where
      by_newest :
          (found : Option ℕ)
          → latest s.cmp v key (contents s (levels 0)) ≡ Option.map (item s) found
          → value_of (elim found [ none ↦ none | some p ↦ present s p ])
            ≡ elim (latest s.cmp v key (contents s (levels 0))) [ none ↦ none | some e ↦ e.value ]
      by_newest none e = ground (arith, e)
      by_newest (some p) e = ground (arith, e, value_of-present p)
