-- ===== src/Policies/Prio/Greatest.antt =====
-- src/policies/priority.c: the searches for the greatest `r`, below a limit and of all.
use preemptive_and_non_preem.Base.{ℕ, ◌≡◌, refl, ◌⊎◌, inl, inr, true, if_holds, contrary, arith}
use preemptive_and_non_preem.Base.Int.{ℤ, pos, ◌≤ℤ◌, ltb_ℤ}
use preemptive_and_non_preem.Policies.Prio.Tree.{
  Treap, leaf, node, Prio, node_before, max_r_from, last_r, max_r,
}
use preemptive_and_non_preem.Policies.Prio.Shape.{
  Has, Has-leaf, Has-cases, Has-left, Has-right, Has-root, IsTreap,
}
use preemptive_and_non_preem.Policies.Prio.Searches.{IsBelow, r-before}

trans_ℤ : (a b c : ℤ) → a ≤ℤ b → b ≤ℤ c → a ≤ℤ c
trans_ℤ a b c h h' = omega (arith, h, h')

module _ (s : Prio) (limit : ℤ) where
  -- The search never goes below where it starts.
  max_r_from-grows :
      (t : Treap) (ans : ℤ)
      → IsTreap s t
      → ((y : ℕ) → Has t y → ans ≤ℤ s.r y)
      → ans ≤ℤ max_r_from s limit t ans
  unfolding max_r_from
  max_r_from-grows leaf ans h above = omega arith
  max_r_from-grows (node l t b r) ans (left, right, lows, highs, best) above =
      if_holds (λ m. ans ≤ℤ m) (ltb_ℤ (s.r t) limit)
        (λ _.
          trans_ℤ ans (s.r t) _ (above t (Has-root l t b r))
            (max_r_from-grows r (s.r t) right (λ y q. r-before s limit t y (highs y q))))
        (λ _. max_r_from-grows l ans left (λ y q. above y (Has-left l t b r y q)))

  pub max_r_from-bounds :
      (t : Treap) (ans : ℤ) (y : ℕ)
      → IsTreap s t
      → IsBelow s limit t y
      → s.r y ≤ℤ max_r_from s limit t ans
  unfolding max_r_from
  max_r_from-bounds leaf ans y h below = absurd (Has-leaf y below.0)
  max_r_from-bounds (node l t b r) ans y (left, right, lows, highs, best) (q, low) =
      if_holds (λ m. s.r y ≤ℤ m) (ltb_ℤ (s.r t) limit)
        (λ _.
          let above_t =
            max_r_from-grows r (s.r t) right (λ z p. r-before s limit t z (highs z p)) in
          elim (Has-cases y l t b r q) [
            | inl (inl e) ↦ rw e above_t
            | inl (inr in_left) ↦
                trans_ℤ (s.r y) (s.r t) _ (r-before s limit y t (lows y in_left)) above_t
            | inr in_right ↦ max_r_from-bounds r (s.r t) y right (in_right, low)
          ])
        (λ high. elim (Has-cases y l t b r q) [
          | inl (inl e) ↦ absurd (contrary low (rw e high))
          | inl (inr in_left) ↦ max_r_from-bounds l ans y left (in_left, low)
          | inr in_right ↦
              let le = r-before s limit t y (highs y in_right) in
              absurd (ground (arith, le, low, high))
        ])

  last_r-bounds :
      (t : Treap) (x y : ℕ)
      → IsTreap s t
      → ((z : ℕ) → Has t z → node_before s x z ≡ true)
      → (y ≡ x) ⊎ Has t y
      → s.r y ≤ℤ last_r s x t
  unfolding last_r
  last_r-bounds leaf x y h after (inl e) = rw e (omega arith)
  last_r-bounds leaf x y h after (inr q) = absurd (Has-leaf y q)
  last_r-bounds (node l t b r) x y (left, right, lows, highs, best) after (inl e) = rw e (
      trans_ℤ (s.r x) (s.r t) _ (r-before s limit x t (after t (Has-root l t b r)))
        (last_r-bounds r t t right highs (inl refl)))
  last_r-bounds (node l t b r) x y (left, right, lows, highs, best) after (inr q) =
      elim (Has-cases y l t b r q) [
        | inl (inl e) ↦ last_r-bounds r t y right highs (inl e)
        | inl (inr in_left) ↦
            trans_ℤ (s.r y) (s.r t) _ (r-before s limit y t (lows y in_left))
              (last_r-bounds r t t right highs (inl refl))
        | inr in_right ↦ last_r-bounds r t y right highs (inr in_right)
      ]

  pub max_r-bounds : (y : ℕ) → IsTreap s s.root → Has s.root y → s.r y ≤ℤ max_r s
  unfolding max_r
  max_r-bounds y h q = bounds s.root h q
    where
      bounds :
          (t : Treap)
          → IsTreap s t
          → Has t y
          → s.r y ≤ℤ (elim t [ leaf ↦ pos 0 | node l x b r ↦ last_r s x r ])
      bounds leaf h q = absurd (Has-leaf y q)
      bounds (node l t b r) (left, right, lows, highs, best) q = elim (Has-cases y l t b r q) [
        | inl (inl e) ↦ last_r-bounds r t y right highs (inl e)
        | inl (inr in_left) ↦
            trans_ℤ (s.r y) (s.r t) _ (r-before s limit y t (lows y in_left))
              (last_r-bounds r t t right highs (inl refl))
        | inr in_right ↦ last_r-bounds r t y right highs (inr in_right)
      ]

pub max_r_from-below :
    (s : Prio) (limit : ℤ) (t : Treap) (ans : ℤ)
    → ltb_ℤ ans limit ≡ true
    → ltb_ℤ (max_r_from s limit t ans) limit ≡ true
unfolding max_r_from
max_r_from-below s limit leaf ans h = h
max_r_from-below s limit (node l t b r) ans h =
    if_holds (λ m. ltb_ℤ m limit ≡ true) (ltb_ℤ (s.r t) limit)
      (λ low. max_r_from-below s limit r (s.r t) low) (λ _. max_r_from-below s limit l ans h)

last_r-queued :
    (s : Prio) (t : Treap) (x : ℕ) → (z : ℕ) × ((z ≡ x) ⊎ Has t z) × (last_r s x t ≡ s.r z)
unfolding last_r
last_r-queued s leaf x = (x, inl refl, refl)
last_r-queued s (node l t b r) x =
    let (z, place, e) = last_r-queued s r t in
    (
      z,
      elim place [
        | inl same ↦ inr (rw same (Has-root l t b r))
        | inr below ↦ inr (Has-right l t b r z below)
      ],
      e,
    )

pub max_r-queued : (s : Prio) (y : ℕ) → Has s.root y → (z : ℕ) × Has s.root z × (max_r s ≡ s.r z)
unfolding max_r
max_r-queued s y q = of_tree s.root q
  where
    of_tree :
        (t : Treap)
        → Has t y
        → (z : ℕ) × Has t z × ((elim t [ leaf ↦ pos 0 | node l x b r ↦ last_r s x r ]) ≡ s.r z)
    of_tree leaf q = absurd (Has-leaf y q)
    of_tree (node l t b r) q =
        let (z, place, e) = last_r-queued s r t in
        (
          z,
          elim place [
            | inl same ↦ rw same (Has-root l t b r)
            | inr below ↦ Has-right l t b r z below
          ],
          e,
        )
