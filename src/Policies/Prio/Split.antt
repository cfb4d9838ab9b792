-- ===== src/Policies/Prio/Split.antt =====
-- src/policies/priority.c: `split` and `insert` keep a treap, and its processes.
use preemptive_and_non_preem.Base.{
  ℕ, ◌+◌, ◌≡◌, inl, inr, true, false, some, if_holds, arith, ltb, ◌⊎◌, Bool-cases, ==→≡, ◌==◌,
}
use preemptive_and_non_preem.Base.Weight.{indicator}
use preemptive_and_non_preem.Policies.Prio.Tree.{
  Treap, leaf, node, Prio, node_before, split, insert,
}
use preemptive_and_non_preem.Policies.Prio.Keys.{node_before_trans}
use preemptive_and_non_preem.Policies.Prio.Best.{IsBest, IsBest-same, IsBest-one}
use preemptive_and_non_preem.Policies.Prio.Shape.{
  indicator-eq, copies, Has, Has-leaf, IsTreap, copies-leaf, copies-node, copies-pull, pull-IsTreap,
  Has-cases, Has-left, Has-right, Has-root,
}

-- The order tells `x` from every process of the tree.
abbrev pub Tells : Prio → ℕ → Treap → Type 0
Tells s x t = (y : ℕ) → Has t y → node_before s y x ≡ false → node_before s x y ≡ true

module _ (s : Prio) (x : ℕ) where
  -- The two parts of a tree.
  pub record Splits (t : Treap) (parts : Treap × Treap) : Type 0 where
    pub left : IsTreap s parts.0
    pub right : IsTreap s parts.1
    pub below : (y : ℕ) → Has parts.0 y → node_before s y x ≡ true
    pub above : (y : ℕ) → Has parts.1 y → node_before s x y ≡ true
    pub whole : (y : ℕ) → copies y parts.0 + copies y parts.1 ≡ copies y t

  -- For a treap whose order tells `x` from its processes: `split` gives two treaps, of the processes
  -- before `x` and of those after it, and together they hold what the treap did.
  pub split-Splits : (t : Treap) → IsTreap s t → Tells s x t → Splits t (split s t x)
  unfolding split
  split-Splits leaf h tells = record {
    left = tt;
    right = tt;
    below = λ y q. absurd (Has-leaf y q);
    above = λ y q. absurd (Has-leaf y q);
    whole = λ y. omega (arith, copies-leaf y);
  }
  split-Splits (node l t b r) (left, right, lows, highs, best) tells =
      if_holds (Splits (node l t b r)) (node_before s t x)
        (λ before_x.
          let p = split s r x in
          let ih = split-Splits r right (λ y q. tells y (Has-right l t b r y q)) in
          let inside : (y : ℕ) → Has p.0 y → Has r y = λ y q. omega (arith, ih.whole y, q) in
          record {
            left = pull-IsTreap s l t p.0 left ih.left lows (λ y q. highs y (inside y q));
            right = ih.right;
            below = λ y q. elim (Has-cases y l t _ p.0 q) [
              | inl (inl e) ↦ rw e before_x
              | inl (inr low) ↦ node_before_trans s y t x (lows y low) before_x
              | inr high ↦ ih.below y high
            ];
            above = ih.above;
            whole = λ y. omega (arith, copies-pull s y l t p.0, copies-node y l t b r, ih.whole y);
          })
        (λ after_x.
          let p = split s l x in
          let ih = split-Splits l left (λ y q. tells y (Has-left l t b r y q)) in
          let inside : (y : ℕ) → Has p.1 y → Has l y = λ y q. omega (arith, ih.whole y, q) in
          let here = tells t (Has-root l t b r) after_x in
          record {
            left = ih.left;
            right = pull-IsTreap s p.1 t r ih.right right (λ y q. lows y (inside y q)) highs;
            below = ih.below;
            above = λ y q. elim (Has-cases y p.1 t _ r q) [
              | inl (inl e) ↦ rw e here
              | inl (inr low) ↦ ih.above y low
              | inr high ↦ node_before_trans s x t y here (highs y high)
            ];
            whole = λ y. omega (arith, copies-pull s y p.1 t r, copies-node y l t b r, ih.whole y);
          })

  -- The order tells every process of the tree from `x`, in the other direction.
  told :
      (t : Treap)
      → Tells s x t
      → (y : ℕ) → Has t y
      → node_before s x y ≡ false
      → node_before s y x ≡ true
  told t tells y q after = elim (Bool-cases (node_before s y x)) [
    | inl before ↦ before
    | inr h ↦ let e = tells y q h in cc
  ]

  -- A treap with the process `x` more than `t` holds.
  abbrev Extends : Treap → Treap → Type 0
  Extends t t' = IsTreap s t' × ((y : ℕ) → copies y t' ≡ copies y t + indicator y x)

  new_process : (t t' : Treap) → Extends t t' → (y : ℕ) → Has t' y → (y ≡ x) ⊎ Has t y
  new_process t t' e y h = elim (Bool-cases (x == y)) [
    | inl same ↦ inl (omega (arith, ==→≡ {a = x} {b = y} same))
    | inr apart ↦ inr (ground (arith, e.1 y, h, apart))
  ]

  IsBest-single : IsBest s (Has (node leaf x (some x) leaf)) (some x)
  IsBest-single =
      IsBest-same s {Q = λ y. y ≡ x} (some x)
        (λ y e. omega (arith, copies-node y leaf x (some x) leaf, indicator-eq x y e))
        (λ y h. elim (Has-cases y leaf x (some x) leaf h) [
          | inl (inl e) ↦ e
          | inl (inr low) ↦ absurd (Has-leaf y low)
          | inr high ↦ absurd (Has-leaf y high)
        ])
        (IsBest-one s x)

  -- For a treap whose order tells `x` from its processes: `insert` gives a treap with its processes
  -- and `x`.
  pub insert-IsTreap :
      (t : Treap)
      → IsTreap s t
      → Tells s x t
      → IsTreap s (insert s t x) × ((y : ℕ) → copies y (insert s t x) ≡ copies y t + indicator y x)
  unfolding insert
  insert-IsTreap leaf h tells = (
    (tt, tt, (λ y q. absurd (Has-leaf y q)), (λ y q. absurd (Has-leaf y q)), IsBest-single),
    λ y. omega (arith, copies-leaf y, copies-node y leaf x (some x) leaf),
  )
  insert-IsTreap (node l t b r) h tells =
      let old = node l t b r in
      let p = split s old x in
      let cut = split-Splits old h tells in
      let (left, right, lows, highs, best) = h in
      if_holds (Extends old) (ltb (s.heap_prio t) (s.heap_prio x))
        (λ _. (
          pull-IsTreap s p.0 x p.1 cut.left cut.right cut.below cut.above,
          λ y. omega (arith, copies-pull s y p.0 x p.1, cut.whole y),
        ))
        (λ _.
          if_holds (Extends old) (node_before s x t)
            (λ before_t.
              let ih = insert-IsTreap l left (λ y q. tells y (Has-left l t b r y q)) in
              (
                pull-IsTreap s (insert s l x) t r ih.0 right
                    (λ y q. elim (new_process l _ ih y q) [
                      | inl e ↦ rw e before_t
                      | inr low ↦ lows y low
                    ])
                    highs,
                λ y.
                    omega
                      (arith, copies-pull s y (insert s l x) t r, copies-node y l t b r, ih.1 y),
              ))
            (λ after_t.
              let ih = insert-IsTreap r right (λ y q. tells y (Has-right l t b r y q)) in
              let here = told old tells t (Has-root l t b r) after_t in
              (
                pull-IsTreap s l t (insert s r x) left ih.0 lows (λ y q.
                    elim (new_process r _ ih y q) [ inl e ↦ rw e here | inr high ↦ highs y high ]),
                λ y.
                    omega
                      (arith, copies-pull s y l t (insert s r x), copies-node y l t b r, ih.1 y),
              )))
