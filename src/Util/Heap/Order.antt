-- ===== src/Util/Heap/Order.antt =====
-- The heap order, and what a caller's ordering has to satisfy.
use mathlib.Core.List.Perm
use preemptive_and_non_preem.Base.{
  ℕ, zero, suc, ◌<◌, ◌≡◌, true, false, List, Perm, arith, length, length-set, get_or-set, set,
  set-perm, ◌==◌, if◌then◌else◌,
}
use preemptive_and_non_preem.Util.Heap.{Less, at, swap, parent}

-- A strict weak order, read through `less a b ≡ false`: "b is not after a".
pub record IsOrder (less : Less) : Type 0 where
  pub asym : (a b : ℕ) → less a b ≡ true → less b a ≡ false
  pub trans : (a b c : ℕ) → less b a ≡ false → less c b ≡ false → less c a ≡ false

-- No entry is before its parent.
abbrev pub IsHeap : Less → List ℕ → Type 0
IsHeap less items =
    (c : ℕ) → 0 < c → c < length items → less (at items c) (at items (parent c)) ≡ false

-- The children of `i` are not before the parent of `i`.
abbrev pub IsBridged : Less → List ℕ → ℕ → Type 0
IsBridged less items i =
    (c : ℕ)
    → 0 < c
    → c < length items
    → parent c ≡ i
    → 0 < i
    → less (at items c) (at items (parent i)) ≡ false

pub less_refl : (less : Less) → IsOrder less → (a : ℕ) → less a a ≡ false
less_refl less o a = ground (arith, o.asym a a)

pub length-swap : (items : List ℕ) (i j : ℕ) → length (swap items i j) ≡ length items
unfolding swap
length-swap items i j = simp length-set

module _ (items : List ℕ) (i j : ℕ) (hi : i < length items) (hj : j < length items) where
  pub at-swap :
      (c : ℕ)
      → at (swap items i j) c
        ≡ (if j == c then at items i else if i == c then at items j else at items c)
  unfolding swap
  at-swap c = rw (
    get_or-set (set items i (at items j)) j c (at items i) 0 (rw length-set hj),
    get_or-set items i c (at items j) 0 hi,
  )

  pub swap-perm : Perm (swap items i j) items
  unfolding swap
  swap-perm =
      let mid = set items i (at items j) in
      let kept : at mid j ≡ at items j = ground (arith, get_or-set items i j (at items j) 0) in
      let second = rw kept at (set-perm mid j (at items i) 0 (rw length-set hj)) in
      Perm.cons_inv (Perm.trans second (set-perm items i (at items j) 0 hi))

root_least_below :
    (less : Less)
    → IsOrder less
    → (k : ℕ) (items : List ℕ) (i : ℕ) → IsHeap less items
    → i < k
    → i < length items
    → less (at items i) (at items 0) ≡ false
root_least_below less o zero items i h f p = absurd (omega arith)
root_least_below less o (suc k) items zero h f p = less_refl less o (at items 0)
root_least_below less o (suc k) items (suc i) h f p =
    o.trans (at items 0) (at items (parent (suc i))) (at items (suc i))
      (root_least_below less o k items (parent (suc i)) h (omega arith) (omega arith))
      (h (suc i) (omega arith) p)

-- No entry of a heap is before its root.
pub root_least :
    (less : Less)
    → IsOrder less
    → (items : List ℕ) (i : ℕ) → IsHeap less items
    → i < length items
    → less (at items i) (at items 0) ≡ false
root_least less o items i h p = root_least_below less o (suc i) items i h (omega arith) p
