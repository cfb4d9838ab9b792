-- ===== src/Policies/Prio/Searches.antt =====
-- src/policies/priority.c: the searches by `r`, for the best process on either side of a limit and for
-- the greatest `r`, find what a look at every process would.
use preemptive_and_non_preem.Base.{
  ℕ, ◌≡◌, ◌⊎◌, inl, inr, true, false, Option, none, some, if_holds, arith, contrary,
}
use preemptive_and_non_preem.Base.Int.{ℤ, ltb_ℤ, ◌≤ℤ◌}
use preemptive_and_non_preem.Policies.Prio.Tree.{
  Treap, leaf, node, Prio, node_before, better_of, best_of, best_below_from, best_below,
  best_above_from, best_at_or_above,
}
use preemptive_and_non_preem.Policies.Prio.Best.{IsBest, IsBest-same, IsBest-one, better_of-IsBest}
use preemptive_and_non_preem.Policies.Prio.Shape.{
  Has, IsTreap, Has-cases, Has-left, Has-leaf, Has-right, Has-root, best_of-IsBest,
}

-- A process of the tree with `r` below the limit, or one with `r` at or above it.
abbrev pub IsBelow : Prio → ℤ → Treap → ℕ → Type 0
IsBelow s limit t y = Has t y × (ltb_ℤ (s.r y) limit ≡ true)

abbrev pub IsAbove : Prio → ℤ → Treap → ℕ → Type 0
IsAbove s limit t y = Has t y × (ltb_ℤ (s.r y) limit ≡ false)

module _ (s : Prio) (limit : ℤ) where
  pub r-before : (x y : ℕ) → node_before s x y ≡ true → s.r x ≤ℤ s.r y
  unfolding node_before
  r-before x y h = ground (arith, h)

  below_before :
      (x y : ℕ) → node_before s x y ≡ true → ltb_ℤ (s.r y) limit ≡ true → ltb_ℤ (s.r x) limit ≡ true
  below_before x y h low = let le = r-before x y h in ground (arith, le, low)

  above_after :
      (x y : ℕ)
      → node_before s x y ≡ true
      → ltb_ℤ (s.r x) limit ≡ false
      → ltb_ℤ (s.r y) limit ≡ false
  above_after x y h high = let le = r-before x y h in ground (arith, le, high)

  -- `better_of` with a node and the whole of a subtree of it.
  IsBest-with :
      (P : ℕ → Type 0) (res : Option ℕ) (x : ℕ) (t : Treap)
      → IsBest s P res
      → IsTreap s t
      → IsBest s
          (λ y. (P y ⊎ (y ≡ x)) ⊎ Has t y)
          (better_of s (better_of s res (some x)) (best_of t))
  IsBest-with P res x t best h =
      better_of-IsBest s (λ y q. inl q) (λ y q. inr q) (λ y q. q) (better_of s res (some x))
        (best_of t)
        (better_of-IsBest s (λ y q. inl q) (λ y q. inr q) (λ y q. q) res (some x) best
          (IsBest-one s x))
        (best_of-IsBest s t h)

  best_below_from-IsBest :
      (t : Treap) (P : ℕ → Type 0) (res : Option ℕ)
      → IsTreap s t
      → IsBest s P res
      → IsBest s (λ y. P y ⊎ IsBelow s limit t y) (best_below_from s limit t res)
  unfolding best_below_from
  best_below_from-IsBest leaf P res h best =
      IsBest-same s res (λ y p. inl p)
        (λ y q. elim q [ inl p ↦ p | inr low ↦ absurd (Has-leaf y low.0) ]) best
  best_below_from-IsBest (node l t b r) P res (left, right, lows, highs, here) best =
      let IsBelowHere : ℕ → Type 0 = λ y. P y ⊎ IsBelow s limit (node l t b r) y in
      if_holds (IsBest s IsBelowHere) (ltb_ℤ (s.r t) limit)
        (λ low.
          IsBest-same s _
            (λ y q. elim q [
              | inl (inl (inl p)) ↦ inl p
              | inl (inl (inr e)) ↦ inr (rw e (Has-root l t b r, low))
              | inl (inr in_left) ↦
                  inr (Has-left l t b r y in_left, below_before y t (lows y in_left) low)
              | inr in_right ↦ inr (Has-right l t b r y in_right.0, in_right.1)
            ])
            (λ y q. elim q [
              | inl p ↦ inl (inl (inl p))
              | inr (is_in, small) ↦ elim (Has-cases y l t b r is_in) [
                | inl (inl e) ↦ inl (inl (inr e))
                | inl (inr in_left) ↦ inl (inr in_left)
                | inr in_right ↦ inr (in_right, small)
              ]
            ])
            (best_below_from-IsBest r _ _ right (IsBest-with P res t l best left)))
        (λ high.
          IsBest-same s _
            (λ y q. elim q [
              | inl p ↦ inl p
              | inr (is_in, small) ↦ inr (Has-left l t b r y is_in, small)
            ])
            (λ y q. elim q [
              | inl p ↦ inl p
              | inr (is_in, small) ↦ elim (Has-cases y l t b r is_in) [
                | inl (inl e) ↦ absurd (contrary small (rw e high))
                | inl (inr in_left) ↦ inr (in_left, small)
                | inr in_right ↦ absurd (contrary small (above_after t y (highs y in_right) high))
              ]
            ])
            (best_below_from-IsBest l P res left best))

  best_above_from-IsBest :
      (t : Treap) (P : ℕ → Type 0) (res : Option ℕ)
      → IsTreap s t
      → IsBest s P res
      → IsBest s (λ y. P y ⊎ IsAbove s limit t y) (best_above_from s limit t res)
  unfolding best_above_from
  best_above_from-IsBest leaf P res h best =
      IsBest-same s res (λ y p. inl p)
        (λ y q. elim q [ inl p ↦ p | inr high ↦ absurd (Has-leaf y high.0) ]) best
  best_above_from-IsBest (node l t b r) P res (left, right, lows, highs, here) best =
      let IsAboveHere : ℕ → Type 0 = λ y. P y ⊎ IsAbove s limit (node l t b r) y in
      if_holds (IsBest s IsAboveHere) (ltb_ℤ (s.r t) limit)
        (λ low.
          IsBest-same s _
            (λ y q. elim q [
              | inl p ↦ inl p
              | inr (is_in, large) ↦ inr (Has-right l t b r y is_in, large)
            ])
            (λ y q. elim q [
              | inl p ↦ inl p
              | inr (is_in, large) ↦ elim (Has-cases y l t b r is_in) [
                | inl (inl e) ↦ absurd (contrary (rw e low) large)
                | inl (inr in_left) ↦
                    absurd (contrary (below_before y t (lows y in_left) low) large)
                | inr in_right ↦ inr (in_right, large)
              ]
            ])
            (best_above_from-IsBest r P res right best))
        (λ high.
          IsBest-same s _
            (λ y q. elim q [
              | inl (inl (inl p)) ↦ inl p
              | inl (inl (inr e)) ↦ inr (rw e (Has-root l t b r, high))
              | inl (inr in_right) ↦
                  inr (Has-right l t b r y in_right, above_after t y (highs y in_right) high)
              | inr in_left ↦ inr (Has-left l t b r y in_left.0, in_left.1)
            ])
            (λ y q. elim q [
              | inl p ↦ inl (inl (inl p))
              | inr (is_in, large) ↦ elim (Has-cases y l t b r is_in) [
                | inl (inl e) ↦ inl (inl (inr e))
                | inl (inr in_left) ↦ inr (in_left, large)
                | inr in_right ↦ inl (inr in_right)
              ]
            ])
            (best_above_from-IsBest l _ _ left (IsBest-with P res t r best right)))

  -- For a state whose tree is a treap: `best_below` gives the best of the processes whose `r` is below
  -- the limit, and NIL where there is none.
  pub best_below-IsBest : IsTreap s s.root → IsBest s (IsBelow s limit s.root) (best_below s limit)
  unfolding best_below
  best_below-IsBest h =
      IsBest-same s _ (λ y q. elim q [ inl p ↦ absurd p | inr p ↦ p ]) (λ y p. inr p)
        (best_below_from-IsBest s.root (λ y. ⊥) none h (λ y p. p))

  -- For a state whose tree is a treap: `best_at_or_above` gives the best of the processes whose `r` is
  -- at the limit or above it, and NIL where there is none.
  pub best_at_or_above-IsBest :
      IsTreap s s.root → IsBest s (IsAbove s limit s.root) (best_at_or_above s limit)
  unfolding best_at_or_above
  best_at_or_above-IsBest h =
      IsBest-same s _ (λ y q. elim q [ inl p ↦ absurd p | inr p ↦ p ]) (λ y p. inr p)
        (best_above_from-IsBest s.root (λ y. ⊥) none h (λ y p. p))
