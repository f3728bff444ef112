-- ===== src/Race/Order.antt =====
-- What the steps of a race leave of the order of the entries.

use skl.Prelude.{
  suc, zero, ℕ, ◌≡◌, ◌≢◌, ◌⊎◌, inl, inr, refl, sym, subst, ap, ◌∙◌, lt, eq, gt, Ordering, arith,
  true, false, ◌==◌, Bool-cases, none, Option, Bool, if◌then◌else◌,
}
use skl.Compare.{Bytes, Trailer, Comparator}
use skl.Compare.Laws.{IsOrder, entry_order}
use skl.Node.{get_bytes, next_offset, prev_offset}
use skl.Types.{as_ref}
use skl.Arena.{Arena}
use skl.SkipMap.{SkipMap, get_next, entry, order}
use skl.Splice.{Pointer, shared_key}
use skl.Store.{write_tower, cas_next_offset, cas_prev_offset}
use skl.Update.{share_key}
use skl.Race.{
  met, Pc, ready, written, swapping, relinking, checking, helping, searching, found, panicked,
  finished, Thread, at, again, look, step,
}
use skl.Race.Facts.{IsFresh, Holds}
use skl.Race.Entries.{
  KeepsEntries, LinksOnly, links-KeepsEntries, write_tower-LinksOnly, cas_next_offset-LinksOnly,
  cas_prev_offset-LinksOnly, Everywhere, Everywhere-Mentions, Places, Places-kept, IsBehind,
  IsBefore,
}
use skl.Race.Sharing.{HasWords, Shared, shared, Shared-none}

same_target :
    (c : Comparator) (o : IsOrder c.cmp) (k l j : Bytes) (v w : ℕ)
    → c.cmp l k ≡ eq
    → entry_order c (l, v) (j, w) ≡ entry_order c (k, v) (j, w)
unfolding entry_order
same_target c o k l j v w h = ground (arith, o.eq_left l k j h)

module _ {A T E : Type 0} ⦃t : Trailer T⦄ (ar : Arena A E) (i head tail : ℕ) (s : SkipMap A T)
    (th : Thread) (In : ℕ → Type 0) (o : IsOrder s.cmp.cmp) (words : HasWords s)
    (tail_eq : s.tail ≡ tail) where
  -- A step keeps the entries of the linked nodes and of the other threads, and puts its own thread in
  -- its place.
  abbrev pub Kept : ℕ → Type 0
  Kept q = In q ⊎ (q ≢ th.nd)

  pub record IsKept (r : Thread × SkipMap A T) : Type 0 where
    pub entries : KeepsEntries Kept s r.1
    pub has_words : HasWords r.1
    pub places : Places head tail r.1 r.0 r.0.pc

  links-IsKept :
      (pc : Pc) (s' : SkipMap A T)
      → LinksOnly s s'
      → Places head tail s th pc
      → IsKept (at pc th, s')
  links-IsKept pc s' e h =
      let ke = links-KeepsEntries s s' e in
      record {
        entries = record {
          cmp_same = ke.cmp_same;
          bytes_same = ke.bytes_same;
          entry_same = λ q _. ke.entry_same q tt;
        };
        has_words = subst HasWords (sym e) words;
        places =
            Places-kept Everywhere head tail s s' ke th pc tt (Everywhere-Mentions head tail pc) h;
      }

  -- Back to the start of the loop, with a key that is shared or not.
  again-IsKept :
      (found_key : Option Pointer) (x next : ℕ)
      → (IsFresh In tail th.nd)
      → In x
      → ((next ≡ tail) ⊎ In next)
      → IsBehind head tail s th x
      → IsBefore head tail s th next
      → Shared ar th.nd next th.version th.g s (share_key ar th.nd found_key th.g s)
      → IsKept (again ar i found_key x next th s)
  unfolding again
  again-IsKept found_key x next f x_in next_in b a sh = record {
    entries = record {
      cmp_same = ke.cmp_same;
      bytes_same = ke.bytes_same;
      entry_same = λ q k. ke.entry_same q (not_own q k);
    };
    has_words = sh.1;
    places = (
      subst (λ c. entry_order c (key', th.version) (entry s' th.nd) ≡ eq) (sym ke.cmp_same) sh.3,
      elim b [ inl e ↦ inl e | inr e ↦ inr (same x (not_own x (inl x_in)) ∙ e) ],
      elim a [
        | inl e ↦ inl e
        | inr e ↦ elim next_in [
          | inl k ↦ inl k
          | inr k ↦ inr (same next (not_own next (inl k)) ∙ e)
        ]
      ],
    );
  }
    where
      s' : SkipMap A T
      s' = (share_key ar th.nd found_key th.g s).1

      key' : Bytes
      key' = as_ref (get_bytes s'.mem) (share_key ar th.nd found_key th.g s).0.k

      ke : KeepsEntries (λ q. q ≢ th.nd) s s'
      ke = sh.0

      not_own : (q : ℕ) → Kept q → q ≢ th.nd
      not_own q (inl h) e = f.absent (subst In e h)
      not_own q (inr ne) e = ne e

      same :
          (q : ℕ)
          → q ≢ th.nd
          → entry_order s'.cmp (key', th.version) (entry s' q)
            ≡ entry_order s.cmp (as_ref (get_bytes s.mem) th.g.k, th.version) (entry s q)
      same q ne =
          ap (λ (c : Comparator). entry_order c (key', th.version) (entry s' q)) ke.cmp_same
          ∙ ap (λ (e : Bytes × ℕ). entry_order s.cmp (key', th.version) e) (ke.entry_same q ne)
          ∙ same_target s.cmp o (as_ref (get_bytes s.mem) th.g.k) key' (entry s q).0 th.version
              (entry s q).1 sh.2

  met-Places : (l y : ℕ) → Places head tail s th (met l y)
  met-Places zero y = tt
  met-Places (suc l) y = tt

  look-IsKept :
      (x next : ℕ)
      → IsFresh In tail th.nd
      → In x
      → ((next ≡ tail) ⊎ In next)
      → Places head tail s th (searching x)
      → IsKept (look ar i x next th s)
  unfolding look
  look-IsKept x next f x_in next_in h = elim (Bool-cases (next == s.tail)) [
    | inl e ↦ rw e (
        again-IsKept none x next f x_in next_in h.1 (inl (ground (arith, e, tail_eq)))
          (Shared-none ar th.nd next th.version th.g s o words h.0))
    | inr e ↦ rw e (by_order (order s th.version (as_ref (get_bytes s.mem) th.g.k) next) refl)
  ]
    where
      by_order :
          (r : Ordering)
          → order s th.version (as_ref (get_bytes s.mem) th.g.k) next ≡ r
          → IsKept (elim r as (λ _. Thread × SkipMap A T) [
            | lt ↦
                again ar i
                  (shared_key s th.version (as_ref (get_bytes s.mem) th.g.k) next)
                  x
                  next
                  th
                  s
            | gt ↦ (at (searching next) th, s)
            | eq ↦ (at (met i next) th, s)
          ])
      by_order lt k =
          again-IsKept _ x next f x_in next_in h.1 (inr (unfold order in k))
            (shared ar th.nd next th.version th.g s o words h.0 k)
      by_order gt k = links-IsKept (searching next) s refl (h.0, inr (unfold order in k))
      by_order eq k = links-IsKept (met i next) s refl (met-Places i next)

  unmoved : (pc : Pc) → th.pc ≡ pc → Places head tail s th pc → IsKept (th, s)
  unmoved pc e h = record {
    entries = record { cmp_same = refl; bytes_same = refl; entry_same = λ q _. refl };
    has_words = words;
    places = subst (Places head tail s th) (sym e) h;
  }

  -- Every step, by where the thread stands; `next` and `prev` are the links of the level.
  pub step-IsKept :
      (next prev : ℕ → ℕ) (pc : Pc)
      → ((x : ℕ) → In x → (get_next s x i ≡ next x) × ((next x ≡ tail) ⊎ In (next x)))
      → Holds In tail next prev th.nd pc
      → th.pc ≡ pc
      → Places head tail s th pc
      → IsKept (step ar i pc th s)
  unfolding step
  step-IsKept next prev (ready p q) reads h e k =
      links-IsKept (written p q) (write_tower th.nd i p q s) (write_tower-LinksOnly th.nd i p q s) k
  step-IsKept next prev (written p q) reads h e k = elim (Bool-cases (prev_offset s.mem q i == p)) [
    | inl j ↦ rw j (links-IsKept (swapping p q) s refl k)
    | inr j ↦ rw j (links-IsKept (checking p q (prev_offset s.mem q i)) s refl k)
  ]
  step-IsKept next prev (checking p q r) reads h e k =
      elim (Bool-cases (next_offset s.mem p i == q)) [
        | inl j ↦ rw j (links-IsKept (helping p q r) s refl k)
        | inr j ↦ rw j (links-IsKept (swapping p q) s refl k)
      ]
  step-IsKept next prev (helping p q r) reads h e k =
      links-IsKept (swapping p q) (cas_prev_offset q i r p s).1
        (cas_prev_offset-LinksOnly q i r p s) k
  step-IsKept next prev (swapping p q) reads h e k = by_won (cas_next_offset p i q th.nd s).0
    where
      by_won :
          (won : Bool)
          → IsKept (
              if won
              then (at (relinking p q) th, (cas_next_offset p i q th.nd s).1)
              else (at (searching p) th, (cas_next_offset p i q th.nd s).1))
      by_won true =
          links-IsKept (relinking p q) (cas_next_offset p i q th.nd s).1
            (cas_next_offset-LinksOnly p i q th.nd s) tt
      by_won false =
          links-IsKept (searching p) (cas_next_offset p i q th.nd s).1
            (cas_next_offset-LinksOnly p i q th.nd s) (k.0, k.1)
  step-IsKept next prev (relinking p q) reads h e k =
      links-IsKept finished (cas_prev_offset q i p th.nd s).1
        (cas_prev_offset-LinksOnly q i p th.nd s) tt
  step-IsKept next prev (searching x) reads h e k =
      look-IsKept x (get_next s x i) h.0 h.1
        (subst (λ r. (r ≡ tail) ⊎ In r) (sym (reads x h.1).0) (reads x h.1).1) k
  step-IsKept next prev (found x) reads h e k = unmoved (found x) e k
  step-IsKept next prev (panicked x) reads h e k = unmoved (panicked x) e k
  step-IsKept next prev finished reads h e k = unmoved finished e k

  -- The exchange of the link forward leaves every entry as it is.
  pub swapping_kept : (p q : ℕ) → KeepsEntries Everywhere s (step ar i (swapping p q) th s).1
  unfolding step
  swapping_kept p q = by_won (cas_next_offset p i q th.nd s).0
    where
      by_won :
          (won : Bool)
          → (let r : Thread × SkipMap A T =
                if won
                then (at (relinking p q) th, (cas_next_offset p i q th.nd s).1)
                else (at (searching p) th, (cas_next_offset p i q th.nd s).1) in
              KeepsEntries Everywhere s r.1)
      by_won true =
          links-KeepsEntries s (cas_next_offset p i q th.nd s).1
            (cas_next_offset-LinksOnly p i q th.nd s)
      by_won false =
          links-KeepsEntries s (cas_next_offset p i q th.nd s).1
            (cas_next_offset-LinksOnly p i q th.nd s)
