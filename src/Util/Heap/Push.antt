-- ===== src/Util/Heap/Push.antt =====
-- `heap_push` keeps the heap order and adds exactly one entry.
use mathlib.Core.Logic.{◌≢◌}
use mathlib.Core.List.Perm
use preemptive_and_non_preem.Base.{
  ℕ, zero, suc, ◌+◌, ◌<◌, ◌≡◌, true, false, List, [], ◌∷◌, ◌++◌, Perm, arith, length, length-append,
  get_or-append, concat-perm, ltb, ltb→lt, if_holds,
}
use preemptive_and_non_preem.Util.Heap.{Less, at, swap, parent, sift_up, heap_push}
use preemptive_and_non_preem.Util.Heap.Order.{
  IsOrder, IsHeap, IsBridged, length-swap, at-swap, swap-perm,
}

-- Only the edge above `i` may be out of order.
record Rising (less : Less) (items : List ℕ) (i : ℕ) : Type 0 where
  inside : i < length items
  edges :
      (c : ℕ) → 0 < c → c < length items → c ≢ i → less (at items c) (at items (parent c)) ≡ false
  bridged : IsBridged less items i

swap-Rising :
    (less : Less)
    → IsOrder less
    → (items : List ℕ) (i : ℕ) → Rising less items i
    → 0 < i
    → less (at items i) (at items (parent i)) ≡ true
    → Rising less (swap items i (parent i)) (parent i)
swap-Rising less o items i v pos below =
    let size = length-swap items i (parent i) in
    let read = at-swap items i (parent i) v.inside (omega (arith, v.inside)) in
    record {
      inside = omega (arith, size, v.inside);
      edges = λ c p q r. ground (
        arith,
        size,
        read c,
        read (parent c),
        v.edges c,
        v.bridged c,
        v.inside,
        o.asym (at items i) (at items (parent i)),
        o.trans (at items i) (at items (parent i)) (at items c),
      );
      bridged = λ c p q r s. ground (
        arith,
        size,
        read c,
        read (parent (parent i)),
        v.edges c,
        v.edges (parent i),
        v.inside,
        o.trans (at items (parent (parent i))) (at items (parent i)) (at items c),
      );
    }

sift_up_restores :
    (less : Less)
    → IsOrder less
    → (fuel : ℕ) (items : List ℕ) (i : ℕ) → i < fuel
    → Rising less items i
    → IsHeap less (sift_up less fuel items i) × Perm (sift_up less fuel items i) items
unfolding sift_up
sift_up_restores less o zero items i f v = absurd (omega arith)
sift_up_restores less o (suc fuel) items i f v =
    if_holds Restored (ltb 0 i)
      (λ pos.
        if_holds Restored (less (at items i) (at items (parent i)))
          (λ below.
            let above : parent i < length items = omega (arith, v.inside) in
            let (heap, perm) =
              sift_up_restores less o fuel (swap items i (parent i)) (parent i) (ground arith)
                (swap-Rising less o items i v (ltb→lt pos) below) in
            (heap, Perm.trans perm (swap-perm items i (parent i) v.inside above)))
          (λ settled. (λ c p q. ground (arith, v.edges c), Perm.rfl)))
      (λ root. (λ c p q. v.edges c p q (ground arith), Perm.rfl))
  where
    Restored : List ℕ → Type 0
    Restored r = IsHeap less r × Perm r items

-- Pushing keeps the heap order, and the entries are the old ones and the new one.
pub heap_push_correct :
    (less : Less) (items : List ℕ) (v : ℕ)
    → IsOrder less
    → IsHeap less items
    → IsHeap less (heap_push less items v) × Perm (heap_push less items v) (v ∷ items)
unfolding heap_push
heap_push_correct less items v o h =
    let size = length-append items (v ∷ []) in
    let (heap, perm) =
      sift_up_restores less o (length items + 1) (items ++ v ∷ []) (length items) (omega arith)
        (record {
          inside = omega (arith, size);
          edges = λ c p q r. ground (
            arith,
            size,
            h c,
            get_or-append items (v ∷ []) c 0,
            get_or-append items (v ∷ []) (parent c) 0,
          );
          bridged = λ c p q r s. absurd (omega (arith, size));
        }) in
    (heap, Perm.trans perm (concat-perm items v))
