-- ===== src/Race/Changes.antt =====
-- The three ways in which a step of a thread changes the links of a level: the tower of a node that is
-- not linked yet is written, a node is linked, and a link back is put right.
use skl.Prelude.{ℕ, ◌≡◌, ◌≢◌, ◌⊎◌, inl, inr, ◌∙◌, sym, arith}
use skl.Race.Facts.{IsTarget, IsFresh, IsSpan, Change}

module _ {In : ℕ → Type 0} {tail : ℕ} where
  In-ne : (p q : ℕ) → IsFresh In tail q → In p → p ≢ q
  In-ne p q f h e = f.absent (rw (← e) h)

  pub IsTarget-ne : (p q : ℕ) → IsFresh In tail q → IsTarget In tail p → p ≢ q
  IsTarget-ne p q f (inl e) = λ k. f.ne_tail (sym k ∙ e)
  IsTarget-ne p q f (inr h) = In-ne p q f h

module _ (In : ℕ → Type 0) (tail : ℕ) (next prev next' prev' : ℕ → ℕ) (own : ℕ) where
  pub write-Change :
      IsFresh In tail own
      → ((q : ℕ) → q ≢ own → next' q ≡ next q)
      → ((q : ℕ) → q ≢ own → prev' q ≡ prev q)
      → Change In In tail next prev next' prev' own
  write-Change f en ep = record {
    grow = λ q h. h;
    still_fresh = λ q ne h. h;
    next_same = λ q ne h. en q ne;
    prev_same = λ q ne h. ep q ne;
    back = λ p n hp hn e. sym (en p (In-ne p own f hp)) ∙ e;
    near = λ p n hp hn e. inl (ep n (IsTarget-ne n own f hn));
    past = λ p n old hp hn ne h. record {
      old_in = h.old_in;
      ahead = λ e. h.ahead (sym (en old (In-ne old own f h.old_in)) ∙ e);
      pending = λ e. en p (In-ne p own f hp) ∙ h.pending (sym (ep n (IsTarget-ne n own f hn)) ∙ e);
    };
  }

  pub same-Change :
      ((q : ℕ) → next' q ≡ next q)
      → ((q : ℕ) → prev' q ≡ prev q)
      → Change In In tail next prev next' prev' own
  same-Change en ep = record {
    grow = λ q h. h;
    still_fresh = λ q ne h. h;
    next_same = λ q ne h. en q;
    prev_same = λ q ne h. ep q;
    back = λ p n hp hn e. sym (en p) ∙ e;
    near = λ p n hp hn e. inl (ep n);
    past = λ p n old hp hn ne h. record {
      old_in = h.old_in;
      ahead = λ e. h.ahead (sym (en old) ∙ e);
      pending = λ e. en p ∙ h.pending (sym (ep n) ∙ e);
    };
  }

  pub relink-Change :
      (b n₀ : ℕ)
      → In b
      → next b ≡ n₀
      → IsTarget In tail n₀
      → ((p q : ℕ) → In p → In q → next p ≡ next q → p ≡ q)
      → ((q : ℕ) → next' q ≡ next q)
      → ((q : ℕ) → q ≢ n₀ → prev' q ≡ prev q)
      → (prev' n₀ ≡ prev n₀) ⊎ (prev' n₀ ≡ b)
      → Change In In tail next prev next' prev' own
  relink-Change b n₀ hb eb hn₀ inj en ep e₀ = record {
    grow = λ q h. h;
    still_fresh = λ q ne h. h;
    next_same = λ q ne h. en q;
    prev_same = λ q ne h. ep q (λ e. IsTarget-ne n₀ q h hn₀ (sym e));
    back = λ p n hp hn e. sym (en p) ∙ e;
    near = λ p n hp hn e. ground (arith, en p, ep n, e₀, inj p b hp hb, eb, e);
    past = λ p n old hp hn ne h. record {
      old_in = h.old_in;
      ahead = λ e. h.ahead (sym (en old) ∙ e);
      pending = λ e. ground (arith, en p, ep n, e₀, eb, e, h.ahead, h.pending);
    };
  }

module _ (In In' : ℕ → Type 0) (tail : ℕ) (next prev next' prev' : ℕ → ℕ) (own : ℕ) where
  pub link-Change :
      (p₀ n₀ : ℕ)
      → IsFresh In tail own
      → IsSpan In tail p₀ n₀
      → next p₀ ≡ n₀
      → prev n₀ ≡ p₀
      → ((q : ℕ) → In q → In' q)
      → ((q : ℕ) → In' q → (q ≡ own) ⊎ In q)
      → next' p₀ ≡ own
      → ((q : ℕ) → q ≢ p₀ → next' q ≡ next q)
      → ((q : ℕ) → prev' q ≡ prev q)
      → Change In In' tail next prev next' prev' own
  link-Change p₀ n₀ f sp en₀ ep₀ grow only e₀ en ep = record {
    grow = grow;
    still_fresh = λ q ne h. record {
      absent = λ k. elim (only q k) [ inl e ↦ ne e | inr i ↦ h.absent i ];
      ne_tail = h.ne_tail;
    };
    next_same = λ q ne h. en q (λ e. In-ne p₀ q h sp.prev_in (sym e));
    prev_same = λ q ne h. ep q;
    back = λ p n hp hn e. ground (arith, en p, e₀, e, IsTarget-ne n own f hn);
    near = λ p n hp hn e. inl (ep n);
    past = λ p n old hp hn ne h. record {
      old_in = grow old h.old_in;
      ahead = λ e. ground (arith, en old, e₀, e, h.ahead, IsTarget-ne n own f hn);
      pending = λ e. ground (arith, en p, e₀, e, ep n, en₀, ep₀, h.pending, ne);
    };
  }
