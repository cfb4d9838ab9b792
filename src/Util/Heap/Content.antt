-- ===== src/Util/Heap/Content.antt =====
-- What the heap holds, for any ordering at all: a policy may compare by values that change.
use mathlib.Core.List.Perm
use preemptive_and_non_preem.Base.{
  ℕ, zero, suc, ◌+◌, ◌-◌, ◌<◌, ◌≡◌, refl, true, false, some, List, [], ◌∷◌, ◌++◌, Perm, arith,
  length, length-append, concat-perm, ltb, if_holds, ◌==◌,
}
use preemptive_and_non_preem.Util.Heap.{
  Less, at, swap, parent, sift_up, heap_push, least_child, sift_down, heap_pop, heap_empty,
}
use preemptive_and_non_preem.Util.Heap.Order.{swap-perm, length-swap}
use preemptive_and_non_preem.Util.Heap.Pop.{cut, cut-perm, sift_down-nil}

sift_up-perm :
    (less : Less) (fuel : ℕ) (items : List ℕ) (i : ℕ)
    → i < length items
    → Perm (sift_up less fuel items i) items
unfolding sift_up
sift_up-perm less zero items i h = Perm.rfl
sift_up-perm less (suc fuel) items i h =
    let above : parent i < length items = omega arith in
    let size = length-swap items i (parent i) in
    if_holds (λ r. Perm r items) (ltb 0 i)
      (λ _.
        if_holds (λ r. Perm r items) (less (at items i) (at items (parent i)))
          (λ _.
            Perm.trans (sift_up-perm less fuel (swap items i (parent i)) (parent i) (rw size above))
              (swap-perm items i (parent i) h above))
          (λ _. Perm.rfl))
      (λ _. Perm.rfl)

-- A push adds exactly its value.
pub heap_push-perm :
    (less : Less) (items : List ℕ) (v : ℕ) → Perm (heap_push less items v) (v ∷ items)
unfolding heap_push
heap_push-perm less items v =
    Perm.trans
      (sift_up-perm less (length items + 1) (items ++ v ∷ []) (length items)
        (omega (arith, length-append items (v ∷ []))))
      (concat-perm items v)

least_child-lt :
    (less : Less) (items : List ℕ) (i : ℕ)
    → i < length items
    → least_child less items i < length items
unfolding least_child
least_child-lt less items i h = ground arith

sift_down-perm :
    (less : Less) (fuel : ℕ) (items : List ℕ) (i : ℕ)
    → i < length items
    → Perm (sift_down less fuel items i) items
unfolding sift_down
sift_down-perm less zero items i h = Perm.rfl
sift_down-perm less (suc fuel) items i h =
    let m = least_child less items i in
    let inside = least_child-lt less items i h in
    if_holds (λ r. Perm r items) (m == i) (λ _. Perm.rfl)
      (λ _.
        Perm.trans (sift_down-perm less fuel (swap items i m) m (rw (length-swap items i m) inside))
          (swap-perm items i m h inside))

sift_root-perm :
    (less : Less) (fuel : ℕ) (items : List ℕ) → Perm (sift_down less fuel items 0) items
sift_root-perm less fuel [] = rw (sift_down-nil less fuel) Perm.rfl
sift_root-perm less fuel (x ∷ items) = sift_down-perm less fuel (x ∷ items) 0 (omega arith)

-- A pop of a heap that is not empty succeeds and takes out exactly the value that it returns.
pub heap_pop-perm :
    (less : Less) (items : List ℕ)
    → heap_empty items ≡ false
    → (r : ℕ × List ℕ) × (heap_pop less items ≡ some r) × Perm (r.0 ∷ r.1) items
unfolding heap_pop heap_empty
heap_pop-perm less items left =
    let n = length items - 1 in
    let size : length items ≡ suc n = ground arith in
    (
      (at items 0, sift_down less (length items) (cut items n size) 0),
      rw left,
      Perm.trans (Perm.cons (at items 0) (sift_root-perm less (length items) (cut items n size)))
          (cut-perm items n size),
    )

pub heap_empty-nil : (items : List ℕ) → heap_empty items ≡ true → items ≡ []
unfolding heap_empty
heap_empty-nil [] h = refl
heap_empty-nil (x ∷ items) h = ground arith

pub heap_empty-false : (items : List ℕ) → heap_empty items ≡ false → 0 < length items
unfolding heap_empty
heap_empty-false items h = ground arith
