-- ===== src/Policies/Prio/Erase.antt =====
-- src/policies/priority.c: `merge` and `erase` keep a treap, and its processes but the erased one.
use native.Mathlib.Decide.{dec_lt}
use preemptive_and_non_preem.Base.{
  ℕ, ◌+◌, ◌≡◌, inl, inr, true, false, Option, if_holds, arith, ltb, ◌==◌, ==→≡, ◌⊎◌, if◌then◌else◌,
}
use preemptive_and_non_preem.Base.Weight.{indicator}
use preemptive_and_non_preem.Policies.Prio.Tree.{
  Treap, leaf, node, Prio, node_before, merge_onto, merge, erase,
}
use preemptive_and_non_preem.Policies.Prio.Keys.{node_before_trans, node_before_asym}
use preemptive_and_non_preem.Policies.Prio.Shape.{
  copies, Has, IsTreap, copies-leaf, copies-node, copies-pull, pull-IsTreap, Has-cases, Has-left,
  Has-leaf, Has-right, Has-root,
}

module _ (s : Prio) where
  -- All of one tree come before all of another.
  abbrev pub Precedes : Treap → Treap → Type 0
  Precedes a b = (y z : ℕ) → Has a y → Has b z → node_before s y z ≡ true

  -- A treap of the processes of two.
  abbrev pub Joins : Treap → Treap → Treap → Type 0
  Joins a b t = IsTreap s t × ((y : ℕ) → copies y t ≡ copies y a + copies y b)

  in_either : (a b t : Treap) → Joins a b t → (y : ℕ) → Has t y → Has a y ⊎ Has b y
  in_either a b t j y h = elim (dec_lt 0 (copies y a)) [
    | yes first ↦ inl first
    | no none_there ↦ inr (omega (arith, j.1 y, h, none_there))
  ]

  module _ (la : Treap) (ta : ℕ) (ba : Option ℕ) (ra : Treap) (h : IsTreap s (node la ta ba ra))
      (merge_right : Treap → Treap)
      (joins_right : (b : Treap) → IsTreap s b → Precedes ra b → Joins ra b (merge_right b)) where
    merge_onto-Joins :
        (b : Treap)
        → IsTreap s b
        → Precedes (node la ta ba ra) b
        → Joins (node la ta ba ra) b (merge_onto s la ta ba ra merge_right b)
    unfolding merge_onto
    merge_onto-Joins leaf hb before = (h, λ y. omega (arith, copies-leaf y))
    merge_onto-Joins (node lb tb bb rb) hb before =
        let b = node lb tb bb rb in
        let a = node la ta ba ra in
        let (left_a, right_a, lows_a, highs_a, best_a) = h in
        let (left_b, right_b, lows_b, highs_b, best_b) = hb in
        if_holds (Joins a b) (ltb (s.heap_prio tb) (s.heap_prio ta))
          (λ _.
            let j = joins_right b hb (λ y z p q. before y z (Has-right la ta ba ra y p) q) in
            (
              pull-IsTreap s la ta (merge_right b) left_a j.0 lows_a (λ y q.
                  elim (in_either ra b (merge_right b) j y q) [
                    | inl first ↦ highs_a y first
                    | inr second ↦ before ta y (Has-root la ta ba ra) second
                  ]),
              λ y.
                  omega (
                    arith,
                    copies-pull s y la ta (merge_right b),
                    copies-node y la ta ba ra,
                    j.1 y,
                  ),
            ))
          (λ _.
            let j =
              merge_onto-Joins lb left_b (λ y z p q. before y z p (Has-left lb tb bb rb z q)) in
            let t = merge_onto s la ta ba ra merge_right lb in
            (
              pull-IsTreap s t tb rb j.0 right_b
                  (λ y q. elim (in_either a lb t j y q) [
                    | inl first ↦ before y tb first (Has-root lb tb bb rb)
                    | inr second ↦ lows_b y second
                  ])
                  highs_b,
              λ y. omega (arith, copies-pull s y t tb rb, copies-node y lb tb bb rb, j.1 y),
            ))

  -- For two treaps, one before the other: `merge` gives a treap of the processes of both.
  pub merge-Joins :
      (a b : Treap) → IsTreap s a → IsTreap s b → Precedes a b → Joins a b (merge s a b)
  unfolding merge
  merge-Joins leaf b ha hb before = (hb, λ y. omega (arith, copies-leaf y))
  merge-Joins (node la ta ba ra) b ha hb before =
      merge_onto-Joins la ta ba ra ha (λ t. merge s ra t)
        (λ t ht first. merge-Joins ra t ha.1 ht first) b hb before

  -- A treap of the processes of `t` without `x`.
  abbrev Lacks : Treap → ℕ → Treap → Type 0
  Lacks t x t' = IsTreap s t' × ((y : ℕ) → copies y t' + indicator y x ≡ copies y t)

  still_there : (t t' : Treap) (x : ℕ) → Lacks t x t' → (y : ℕ) → Has t' y → Has t y
  still_there t t' x h y q = omega (arith, h.1 y, q)

  -- Where a process of a treap is below its root.
  side_of :
      (l : Treap) (t : ℕ) (b : Option ℕ) (r : Treap) (x : ℕ)
      → IsTreap s (node l t b r)
      → Has (node l t b r) x
      → (t == x) ≡ false
      → if node_before s x t then Has l x else Has r x
  side_of l t b r x (left, right, lows, highs, best) q apart = elim (Has-cases x l t b r q) [
    | inl (inl e) ↦ absurd (ground (arith, e, apart))
    | inl (inr low) ↦ rw (lows x low) low
    | inr high ↦ rw (node_before_asym s t x (highs x high)) high
  ]

  -- For a process of a treap: `erase` gives a treap of the other processes, and of its other copies.
  pub erase-IsTreap :
      (t : Treap) (x : ℕ)
      → IsTreap s t
      → Has t x
      → IsTreap s (erase s t x) × ((y : ℕ) → copies y (erase s t x) + indicator y x ≡ copies y t)
  unfolding erase
  erase-IsTreap leaf x h q = absurd (Has-leaf x q)
  erase-IsTreap (node l t b r) x (left, right, lows, highs, best) q =
      let old = node l t b r in
      if_holds (Lacks old x) (t == x)
        (λ here.
          let e : x ≡ t = omega (arith, ==→≡ {a = t} {b = x} here) in
          let j =
            merge-Joins l r left right
              (λ y z p p'. node_before_trans s y t z (lows y p) (highs z p')) in
          (j.0, λ y. rw e (omega (arith, j.1 y, copies-node y l t b r))))
        (λ apart.
          let side = side_of l t b r x (left, right, lows, highs, best) q apart in
          if_holds (Lacks old x) (node_before s x t)
            (λ before_t.
              let ih = erase-IsTreap l x left (rw before_t at side) in
              (
                pull-IsTreap s (erase s l x) t r ih.0 right
                    (λ y p. lows y (still_there l _ x ih y p)) highs,
                λ y.
                    omega (arith, copies-pull s y (erase s l x) t r, copies-node y l t b r, ih.1 y),
              ))
            (λ after_t.
              let ih = erase-IsTreap r x right (rw after_t at side) in
              (
                pull-IsTreap s l t (erase s r x) left ih.0 lows
                    (λ y p. highs y (still_there r _ x ih y p)),
                λ y.
                    omega (arith, copies-pull s y l t (erase s r x), copies-node y l t b r, ih.1 y),
              )))
