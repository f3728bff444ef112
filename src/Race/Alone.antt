-- ===== src/Race/Alone.antt =====
-- A thread that is left to run alone comes to the end of the loop, whatever the others have done.

use skl.Prelude.{
  ℕ, zero, suc, ◌+◌, ◌≤◌, ◌≡◌, ◌≢◌, inl, inr, refl, sym, subst, ap, ◌∙◌, List, [], ◌∷◌, arith, ◌==◌,
  Bool-cases,
}
use skl.Compare.{Trailer}
use skl.Arena.{Arena}
use skl.Store.{write_tower, set_link}
use skl.Race.{
  met, Pc, ready, written, swapping, relinking, checking, helping, found, panicked, finished,
  Thread, System, step, turn, run,
}
use skl.Race.Moves.{
  next_of, prev_of, cas_next_offset-won, cas_prev_offset-next, write_tower-other, cas-ends,
}
use skl.Race.Rebuild.{update-own}

-- the thread has linked its node, or found its entry in the map, for which the code panics above the
-- base level
abbrev pub HasEnded : Pc → Type 0
HasEnded (found x) = Unit
HasEnded (panicked x) = Unit
HasEnded finished = Unit
HasEnded _ = ⊥

pub met-HasEnded : (i x : ℕ) → HasEnded (met i x)
met-HasEnded zero x = tt
met-HasEnded (suc i) x = tt

abbrev pub turns : (count w : ℕ) → List ℕ
turns zero w = []
turns (suc count) w = w ∷ turns count w

module _ {A T E : Type 0} ⦃t : Trailer T⦄ (ar : Arena A E) (i n w : ℕ) where
  -- after at most `m` turns of its own
  abbrev pub Ends : (m : ℕ) → System A T → Type 0
  Ends m c = (k : ℕ) × (k ≤ m) × HasEnded ((run ar i n (turns k w) c).thread w).pc

  abbrev pub pc_of : System A T → Pc
  pc_of c = (c.thread w).pc

  pub after_turn : (m : ℕ) (c : System A T) → Ends m (turn ar i n w c) → Ends (suc m) c
  unfolding run
  after_turn m c (k, le, h) = (suc k, omega (arith, le), h)

  pub turned :
      (c : System A T) (pc : Pc)
      → pc_of c ≡ pc
      → ((turn ar i n w c).thread w ≡ (step ar i pc (c.thread w) c.map).0)
        × ((turn ar i n w c).map ≡ (step ar i pc (c.thread w) c.map).1)
  unfolding turn
  turned c pc e = rw (← e) (update-own c.thread w _, refl)

  pub weaken : (m l : ℕ) (c : System A T) → m ≤ l → Ends m c → Ends l c
  weaken m l c le (k, h, e) = (k, omega (arith, h, le), e)

  -- What a step that links nothing leaves of a system.
  pub record IsFrame (c d : System A T) : Type 0 where
    pub next_same : (r : ℕ) → r ≢ (c.thread w).nd → next_of i d.map r ≡ next_of i c.map r
    pub tail_same : d.map.tail ≡ c.map.tail
    pub nd_same : (d.thread w).nd ≡ (c.thread w).nd

  pub framed :
      (c : System A T) (pc : Pc)
      → pc_of c ≡ pc
      → (let r = step ar i pc (c.thread w) c.map in
          ((q : ℕ) → q ≢ (c.thread w).nd → next_of i r.1 q ≡ next_of i c.map q)
          × (r.1.tail ≡ c.map.tail)
          × (r.0.nd ≡ (c.thread w).nd))
      → IsFrame c (turn ar i n w c)
  framed c pc e h =
      let d = turned c pc e in
      record {
        next_same = λ r ne. rw (d.1) (h.0 r ne);
        tail_same = rw (d.1) (h.1);
        nd_same = rw (d.0) (h.2);
      }

  pub pc_turned :
      (c : System A T) (pc new : Pc)
      → pc_of c ≡ pc
      → (step ar i pc (c.thread w) c.map).0.pc ≡ new
      → pc_of (turn ar i n w c) ≡ new
  pc_turned c pc new e h = ap (λ (x : Thread). x.pc) (turned c pc e).0 ∙ h

  -- From a property that ends within `m` turns from the exchange on, to the start of the loop.
  module _ (p q m : ℕ) (P : System A T → Type 0)
      (kept : (c d : System A T) → IsFrame c d → P c → P d)
      (swap : (c : System A T) → P c → pc_of c ≡ swapping p q → Ends m c) where
    pub from_helping :
        (seen : ℕ) (c : System A T) → P c → pc_of c ≡ helping p q seen → Ends (suc m) c
    unfolding step
    from_helping seen c h e = after_turn m c (
        swap (turn ar i n w c)
          (kept c (turn ar i n w c)
            (framed c (helping p q seen) e
              (λ r _. cas_prev_offset-next i seen q p c.map r, (cas-ends i seen q p c.map).3, refl))
            h)
          (pc_turned c (helping p q seen) (swapping p q) e refl))

    pub from_checking :
        (seen : ℕ) (c : System A T) → P c → pc_of c ≡ checking p q seen → Ends (m + 2) c
    unfolding step
    from_checking seen c h e = elim (Bool-cases (next_of i c.map p == q)) [
      | inl k ↦ weaken (suc (suc m)) (m + 2) c (omega arith) (
          after_turn (suc m) c (
            from_helping seen (turn ar i n w c)
              (kept c (turn ar i n w c)
                (framed c (checking p q seen) e (rw k (λ r _. refl, refl, refl))) h)
              (pc_turned c (checking p q seen) (helping p q seen) e (rw k refl))))
      | inr k ↦ weaken (suc m) (m + 2) c (omega arith) (
          after_turn m c (
            swap (turn ar i n w c)
              (kept c (turn ar i n w c)
                (framed c (checking p q seen) e (rw k (λ r _. refl, refl, refl))) h)
              (pc_turned c (checking p q seen) (swapping p q) e (rw k refl))))
    ]

    pub from_written : (c : System A T) → P c → pc_of c ≡ written p q → Ends (m + 3) c
    unfolding step
    from_written c h e = elim (Bool-cases (prev_of i c.map q == p)) [
      | inl k ↦ weaken (suc m) (m + 3) c (omega arith) (
          after_turn m c (
            swap (turn ar i n w c)
              (kept c (turn ar i n w c) (framed c (written p q) e (rw k (λ r _. refl, refl, refl)))
                h)
              (pc_turned c (written p q) (swapping p q) e (rw k refl))))
      | inr k ↦ weaken (suc (m + 2)) (m + 3) c (omega arith) (
          after_turn (m + 2) c (
            from_checking (prev_of i c.map q) (turn ar i n w c)
              (kept c (turn ar i n w c) (framed c (written p q) e (rw k (λ r _. refl, refl, refl)))
                h)
              (pc_turned c (written p q) (checking p q (prev_of i c.map q)) e (rw k refl))))
    ]

    pub from_ready : (c : System A T) → P c → pc_of c ≡ ready p q → Ends (m + 4) c
    unfolding step
    from_ready c h e = weaken (suc (m + 3)) (m + 4) c (omega arith) (
        after_turn (m + 3) c (
          from_written (turn ar i n w c)
            (kept c (turn ar i n w c)
              (framed c (ready p q) e (
                λ r ne. (write_tower-other i (c.thread w).nd p q c.map r ne).0,
                unfold write_tower set_link in refl,
                refl,
              ))
              h)
            (pc_turned c (ready p q) (written p q) e refl)))

  -- With a splice that is right the node is linked.
  abbrev pub IsRight : (p q : ℕ) → System A T → Type 0
  IsRight p q c = (next_of i c.map p ≡ q) × (p ≢ (c.thread w).nd)

  pub IsRight-kept : (p q : ℕ) (c d : System A T) → IsFrame c d → IsRight p q c → IsRight p q d
  IsRight-kept p q c d f h = (f.next_same p h.1 ∙ h.0, λ e. h.1 (e ∙ f.nd_same))

  pub from_relinking : (p q : ℕ) (c : System A T) → pc_of c ≡ relinking p q → Ends 1 c
  unfolding step
  from_relinking p q c e = after_turn 0 c (
    0,
    omega arith,
    unfold run in subst HasEnded (sym (pc_turned c (relinking p q) finished e refl)) tt,
  )

  pub swap_right : (p q : ℕ) (c : System A T) → IsRight p q c → pc_of c ≡ swapping p q → Ends 2 c
  unfolding step
  swap_right p q c h e = after_turn 1 c (
      from_relinking p q (turn ar i n w c) (
        pc_turned c (swapping p q) (relinking p q) e
          (rw ((cas_next_offset-won i p q (c.thread w).nd c.map h.0).0) refl)))
