-- ===== src/Race/Single.antt =====
-- One thread of a race does what the loop of `update` does.
use skl.Prelude.{
  ℕ, zero, suc, ◌≡◌, inl, inr, refl, subst, Bool, true, false, Bool-cases, ◌==◌, Option, none, some,
  Ordering, lt, eq, gt, if◌then◌else◌,
}
use skl.Compare.{Trailer}
use skl.Node.{next_offset, prev_offset, get_bytes}
use skl.Types.{VacantBuffer, as_ref}
use skl.Arena.{Arena}
use skl.Alloc.{Filled}
use skl.Run.{Run, and_then, pure, ok, err, panicked, out_of_fuel}
use skl.SkipMap.{SkipMap, get_next, order}
use skl.Splice.{FindResult, find_splice_for_level, shared_key}
use skl.Store.{write_tower, cas_next_offset, cas_prev_offset}
use skl.Update.{Linking, Linked, linked, returned, help, share_key, lost, link_level}
use skl.Upsert.{UpdateOk}
use skl.Race.{
  met, Pc, ready, written, swapping, relinking, checking, helping, searching, finished, Thread,
  again, look, step,
}

module _ {A T E : Type 0} ⦃t : Trailer T⦄ (ar : Arena A E) (i : ℕ) where
  -- a thread and the map after steps of the thread alone
  unfoldable pub solo : ℕ → Thread × SkipMap A T → Thread × SkipMap A T
  unfolding step
  solo zero r = r
  solo (suc k) r = solo k (step ar i r.0.pc r.0 r.1)

  abbrev pub Leads : Thread × SkipMap A T → Thread × SkipMap A T → Type 0
  Leads r r' = (k : ℕ) × (solo k r ≡ r')

  Leads-step : (r r' : Thread × SkipMap A T) → Leads (step ar i r.0.pc r.0 r.1) r' → Leads r r'
  unfolding solo
  Leads-step r r' (k, e) = (suc k, e)

  Leads-here : (r : Thread × SkipMap A T) → Leads r r
  unfolding solo
  Leads-here r = (0, refl)

-- a thread that is linking `nd`
abbrev pub thread_at : {T : Type 0} → ⦃t : Trailer T⦄ → T → (nd : ℕ) → Linking → Pc → Thread
thread_at ⦃t⦄ trailer nd g pc = record { nd = nd; version = t.version trailer; g = g; pc = pc }

module _ {A T E F : Type 0} ⦃t : Trailer T⦄ (ar : Arena A E) (fuel : ℕ) (meanwhile : Option ℕ)
    (trailer : T) (value_size : ℕ) (f : VacantBuffer → Filled F) (upserts : Bool) (nd i : ℕ) where
  -- Where the loop links the node, the thread comes to its end with the same map.
  abbrev pub Follows : Thread × SkipMap A T → Run (SkipMap A T) F E (Linked T) → Type 0
  Follows r (ok (linked g) s) = Leads ar i r (thread_at trailer nd g finished, s)
  Follows r _ = Unit

  Follows-step :
      (r : Thread × SkipMap A T) (o : Run (SkipMap A T) F E (Linked T))
      → Follows (step ar i r.0.pc r.0 r.1) o
      → Follows r o
  Follows-step r (ok (linked g) s) h = Leads-step ar i r (thread_at trailer nd g finished, s) h
  Follows-step r (ok (returned a) s) h = tt
  Follows-step r (err e s) h = tt
  Follows-step r panicked h = tt
  Follows-step r out_of_fuel h = tt

  help_done : (p q : ℕ) (s : SkipMap A T) → (prev_offset s.mem q i == p) ≡ true → help i p q s ≡ s
  unfolding help
  help_done p q s e = rw e refl

  help_late :
      (p q : ℕ) (s : SkipMap A T)
      → (prev_offset s.mem q i == p) ≡ false
      → (next_offset s.mem p i == q) ≡ false
      → help i p q s ≡ s
  unfolding help
  help_late p q s e k = rw (e, k) refl

  help_helped :
      (p q : ℕ) (s : SkipMap A T)
      → (prev_offset s.mem q i == p) ≡ false
      → (next_offset s.mem p i == q) ≡ true
      → help i p q s ≡ (cas_prev_offset q i (prev_offset s.mem q i) p s).1
  unfolding help
  help_helped p q s e k = rw (e, k) refl

  Follows-written :
      (p q : ℕ) (g : Linking) (s : SkipMap A T) (o : Run (SkipMap A T) F E (Linked T))
      → Follows (thread_at trailer nd g (swapping p q), help i p q s) o
      → Follows (thread_at trailer nd g (written p q), s) o
  unfolding step
  Follows-written p q g s o h =
      let to : SkipMap A T → Type 0 = λ x. Follows (thread_at trailer nd g (swapping p q), x) o in
      Follows-step (thread_at trailer nd g (written p q), s) o
        (elim (Bool-cases (prev_offset s.mem q i == p)) [
          | inl e ↦ rw e (subst to (help_done p q s e) h)
          | inr e ↦ rw e (
              Follows-step (thread_at trailer nd g (checking p q (prev_offset s.mem q i)), s) o
                (elim (Bool-cases (next_offset s.mem p i == q)) [
                  | inl k ↦ rw k (
                      Follows-step (thread_at trailer nd g (helping p q (prev_offset s.mem q i)), s)
                        o (subst to (help_helped p q s e k) h))
                  | inr k ↦ rw k (subst to (help_late p q s e k) h)
                ]))
        ])

  Follows-if :
      (r : Thread × SkipMap A T) (b : Bool) (x y : Run (SkipMap A T) F E (Linked T))
      → Follows r x
      → Follows r y
      → Follows r (if b then x else y)
  Follows-if r true x y h k = h
  Follows-if r false x y h k = k

  Follows-answer :
      (r : Thread × SkipMap A T) (m : Run (SkipMap A T) F E (UpdateOk T))
      → Follows r (and_then m (λ a. pure (returned a)))
  Follows-answer r (ok a s) = tt
  Follows-answer r (err e s) = tt
  Follows-answer r panicked = tt
  Follows-answer r out_of_fuel = tt

  Follows-lost :
      (r : Thread × SkipMap A T) (g : Linking) (node_ptr : ℕ) (s : SkipMap A T)
      → Follows r
          (lost ar fuel meanwhile trailer value_size f upserts nd g.k g.deallocator node_ptr s)
  unfolding lost
  Follows-lost r g node_ptr s = Follows-if r upserts _ _ (Follows-answer r _) tt

  -- what `link_level` does with the answer of the search
  abbrev answered :
      (rounds : ℕ) → Linking → SkipMap A T → Option FindResult → Run (SkipMap A T) F E (Linked T)
  answered rounds g s none = out_of_fuel
  answered rounds g s (some fr) = elim fr.found [
    | true ↦ elim fr.curr [
      | none ↦ panicked
      | some node_ptr ↦
          if i == 0
          then lost ar fuel meanwhile trailer value_size f upserts nd g.k g.deallocator node_ptr s
          else panicked
    ]
    | false ↦
        let (g', s₂) = share_key ar nd fr.found_key g s in
        link_level ar fuel meanwhile trailer value_size f upserts nd rounds i fr.splice.prev
          fr.splice.next g' s₂
  ]

  abbrev FollowsAll : (rounds : ℕ) → Type 0
  FollowsAll rounds =
      (p q : ℕ) (g : Linking) (s : SkipMap A T)
      → Follows (thread_at trailer nd g (ready p q), s)
          (link_level ar fuel meanwhile trailer value_size f upserts nd rounds i p q g s)

  Follows-search :
      (rounds : ℕ)
      → FollowsAll rounds
      → (rest x : ℕ) (g : Linking) (s : SkipMap A T)
      → Follows
          (thread_at trailer nd g (searching x), s)
          (answered rounds g s
            (find_splice_for_level s (t.version trailer) (as_ref (get_bytes s.mem) g.k) rest i x))
  unfolding find_splice_for_level step look again
  Follows-search rounds all zero x g s = tt
  Follows-search rounds all (suc rest) x g s =
      let next = get_next s x i in
      Follows-step (thread_at trailer nd g (searching x), s) _
        (elim (Bool-cases (next == s.tail)) [
          | inl e ↦ rw e (let r = share_key ar nd none g s in all x next r.0 r.1)
          | inr e ↦ rw e (
              by_order next (order s (t.version trailer) (as_ref (get_bytes s.mem) g.k) next)
                (Follows-search rounds all rest next g s))
        ])
    where
      by_order :
          (next : ℕ) (r : Ordering)
          → Follows
              (thread_at trailer nd g (searching next), s)
              (answered rounds g s (
                find_splice_for_level s
                  (t.version trailer)
                  (as_ref (get_bytes s.mem) g.k)
                  rest
                  i
                  next))
          → Follows
              (elim r as (λ _. Thread × SkipMap A T) [
                | lt ↦
                    again ar i
                      (shared_key s (t.version trailer) (as_ref (get_bytes s.mem) g.k) next)
                      x
                      next
                      (thread_at trailer nd g (searching x))
                      s
                | gt ↦ (thread_at trailer nd g (searching next), s)
                | eq ↦ (thread_at trailer nd g (met i next), s)
              ])
              (answered rounds g s (elim r as (λ _. Option FindResult) [
                | lt ↦ some (record {
                  found = false;
                  found_key = shared_key s (t.version trailer) (as_ref (get_bytes s.mem) g.k) next;
                  splice = record { prev = x; next = next };
                  curr = none;
                })
                | gt ↦
                    find_splice_for_level s
                      (t.version trailer)
                      (as_ref (get_bytes s.mem) g.k)
                      rest
                      i
                      next
                | eq ↦ some (record {
                  found = true;
                  found_key = shared_key s (t.version trailer) (as_ref (get_bytes s.mem) g.k) next;
                  splice = record { prev = x; next = next };
                  curr = some next;
                })
              ]))
      by_order next lt onwards =
          let r =
            share_key ar nd (shared_key s (t.version trailer) (as_ref (get_bytes s.mem) g.k) next) g
              s in
          all x next r.0 r.1
      by_order next gt onwards = onwards
      by_order next eq onwards = Follows-if _ (i == 0) _ _ (Follows-lost _ g next s) tt

  FollowsAll-rounds : (rounds : ℕ) → FollowsAll rounds
  unfolding link_level step
  FollowsAll-rounds zero p q g s = tt
  FollowsAll-rounds (suc rounds) p q g s =
      Follows-step (thread_at trailer nd g (ready p q), s) (outcome won)
        (Follows-written p q g (write_tower nd i p q s) (outcome won) (
          Follows-step (thread_at trailer nd g (swapping p q), after) (outcome won)
            (by_won won (Follows-search rounds (FollowsAll-rounds rounds) fuel p g swapped))))
    where
      after : SkipMap A T
      after = help i p q (write_tower nd i p q s)

      won : Bool
      won = (cas_next_offset p i q nd after).0

      swapped : SkipMap A T
      swapped = (cas_next_offset p i q nd after).1

      found_in : Option FindResult
      found_in =
          find_splice_for_level swapped (t.version trailer) (as_ref (get_bytes swapped.mem) g.k)
            fuel i p

      outcome : Bool → Run (SkipMap A T) F E (Linked T)
      outcome true = ok (linked g) (cas_prev_offset q i p nd swapped).1
      outcome false = answered rounds g swapped found_in

      by_won :
          (b : Bool)
          → Follows
              (thread_at trailer nd g (searching p), swapped)
              (answered rounds g swapped found_in)
          → Follows
              (if b
                then (thread_at trailer nd g (relinking p q), swapped)
                else (thread_at trailer nd g (searching p), swapped))
              (outcome b)
      by_won true h =
          Leads-step ar i (thread_at trailer nd g (relinking p q), swapped)
            (thread_at trailer nd g finished, (cas_prev_offset q i p nd swapped).1)
            (Leads-here ar i
              (thread_at trailer nd g finished, (cas_prev_offset q i p nd swapped).1))
      by_won false h = h

  -- A thread that runs alone does what the loop of `update` on one level does: where `link_level` links
  -- the node from a splice, some number of steps of the thread from the same splice brings it to its end
  -- with the same map, the same key and the same note of a stale splice.
  pub link_level-solo :
      (rounds p q : ℕ) (g g' : Linking) (s s' : SkipMap A T)
      → link_level ar fuel meanwhile trailer value_size f upserts nd rounds i p q g s
        ≡ ok (linked g') s'
      → (k : ℕ) × (solo ar i k (thread_at trailer nd g (ready p q), s)
          ≡ (thread_at trailer nd g' finished, s'))
  link_level-solo rounds p q g g' s s' e =
      subst (Follows (thread_at trailer nd g (ready p q), s)) e (FollowsAll-rounds rounds p q g s)
