-- ===== src/Policies/Prio/Shape.antt =====
-- src/policies/priority.c: what holds of a treap at all times. Its nodes are in the order of (r, pid),
-- and each knows the best process below it. `pull` builds such a tree from two.
use native.Mathlib.Decide.{dec_lt}
use preemptive_and_non_preem.Base.{
  ℕ, ◌+◌, ◌<◌, ◌≡◌, refl, ◌⊎◌, inl, inr, true, Option, some, ◌∷◌, arith, Bool-cases, ◌==◌, ==→≡,
}
use preemptive_and_non_preem.Base.Weight.{weigh, weigh-append, count, indicator}
use preemptive_and_non_preem.Policies.Prio.Tree.{
  Treap, leaf, node, Prio, node_before, best_of, pull, better_of, inorder,
}
use preemptive_and_non_preem.Policies.Prio.Best.{IsBest, IsBest-one, better_of-IsBest}

-- How often a process occurs in a tree.
abbrev pub copies : ℕ → Treap → ℕ
copies y t = count y (inorder t)

abbrev pub Has : Treap → ℕ → Type 0
Has t y = 0 < copies y t

abbrev pub IsTreap : Prio → Treap → Type 0
IsTreap s leaf = Unit {0}
IsTreap s (node l x b r) =
    IsTreap s l
    × IsTreap s r
    × ((y : ℕ) → Has l y → node_before s y x ≡ true)
    × ((y : ℕ) → Has r y → node_before s x y ≡ true)
    × IsBest s (Has (node l x b r)) b

pub copies-leaf : (y : ℕ) → copies y leaf ≡ 0
unfolding inorder weigh
copies-leaf y = refl

pub Has-leaf : (y : ℕ) → ¬ Has leaf y
Has-leaf y h = omega (arith, copies-leaf y, h)

pub copies-node :
    (y : ℕ) (l : Treap) (x : ℕ) (b : Option ℕ) (r : Treap)
    → copies y (node l x b r) ≡ copies y l + indicator y x + copies y r
unfolding inorder weigh
copies-node y l x b r = omega (arith, weigh-append (indicator y) (inorder l) (x ∷ inorder r))

pub indicator-eq : (x y : ℕ) → y ≡ x → indicator y x ≡ 1
indicator-eq x y e = ground (arith, e)

-- A process of a tree is below on one side, or the root.
pub Has-cases :
    (y : ℕ) (l : Treap) (x : ℕ) (b : Option ℕ) (r : Treap)
    → Has (node l x b r) y
    → ((y ≡ x) ⊎ Has l y) ⊎ Has r y
Has-cases y l x b r h = elim (Bool-cases (x == y)) [
  | inl e ↦ inl (inl (omega (arith, ==→≡ {a = x} {b = y} e)))
  | inr e ↦
      let all = copies-node y l x b r in
      elim (dec_lt 0 (copies y l)) [
        | yes below ↦ inl (inr below)
        | no none_left ↦ inr (ground (arith, all, h, e, none_left))
      ]
]

module _ (s : Prio) where
  pub best_of-IsBest : (t : Treap) → IsTreap s t → IsBest s (Has t) (best_of t)
  best_of-IsBest leaf h = Has-leaf
  best_of-IsBest (node l x b r) h = h.4

  -- `pull` gives the best of a node from those of the subtrees.
  -- The best of a node, of its left subtree and of its right one is that of all three.
  best_of_three :
      (l : Treap) (x : ℕ) (b : Option ℕ) (r : Treap)
      → IsTreap s l
      → IsTreap s r
      → IsBest s (Has (node l x b r)) (better_of s (better_of s (some x) (best_of l)) (best_of r))
  best_of_three l x b r left right =
      better_of-IsBest s {Q = λ y. (y ≡ x) ⊎ Has l y} {R = Has r}
        (λ y q. elim q [
          | inl e ↦ omega (arith, copies-node y l x b r, indicator-eq x y e)
          | inr h ↦ omega (arith, copies-node y l x b r, h)
        ])
        (λ y h. omega (arith, copies-node y l x b r, h)) (λ y h. Has-cases y l x b r h)
        (better_of s (some x) (best_of l)) (best_of r)
        (better_of-IsBest s {Q = λ y. y ≡ x} {R = Has l} (λ y e. inl e) (λ y h. inr h) (λ y h. h)
          (some x) (best_of l) (IsBest-one s x) (best_of-IsBest l left))
        (best_of-IsBest r right)

  pub pull-IsTreap :
      (l : Treap) (x : ℕ) (r : Treap)
      → IsTreap s l
      → IsTreap s r
      → ((y : ℕ) → Has l y → node_before s y x ≡ true)
      → ((y : ℕ) → Has r y → node_before s x y ≡ true)
      → IsTreap s (pull s l x r)
  unfolding pull
  pull-IsTreap l x r left right lows highs =
      (left, right, lows, highs, best_of_three l x _ r left right)

  pub copies-pull :
      (y : ℕ) (l : Treap) (x : ℕ) (r : Treap)
      → copies y (pull s l x r) ≡ copies y l + indicator y x + copies y r
  unfolding pull
  copies-pull y l x r = copies-node y l x _ r

module _ (l : Treap) (x : ℕ) (b : Option ℕ) (r : Treap) where
  pub Has-left : (y : ℕ) → Has l y → Has (node l x b r) y
  Has-left y h = omega (arith, copies-node y l x b r, h)

  pub Has-right : (y : ℕ) → Has r y → Has (node l x b r) y
  Has-right y h = omega (arith, copies-node y l x b r, h)

  pub Has-root : Has (node l x b r) x
  Has-root = omega (arith, copies-node x l x b r, indicator-eq x x refl)
