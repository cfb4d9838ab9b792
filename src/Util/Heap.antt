-- ===== src/Util/Heap.antt =====
-- src/util/heap.c: the binary min-heap of process indices that the ready sets and the blocked set
-- use. The array is the list of its `len` live entries; `less` is the caller's ordering together
-- with the context that it reads, so it is an argument of each call.
pub mod Order
pub mod Push
pub mod Pop
pub mod Content
use preemptive_and_non_preem.Base.{
  ℕ, zero, suc, ◌+◌, ◌-◌, ◌*◌, ◌/◌, Bool, ◌&&◌, Option, none, some, List, [], ◌∷◌, ◌++◌, ltb, ◌==◌,
  if◌then◌else◌, length, get_or, set, take,
}

-- A `HeapLess` with its context.
abbrev pub Less : Type 0
Less = ℕ → ℕ → Bool

-- `h->items[i]`
abbrev pub at : List ℕ → ℕ → ℕ
at items i = get_or items i 0

pub swap : List ℕ → ℕ → ℕ → List ℕ
swap items i j = set (set items i (at items j)) j (at items i)

abbrev pub parent : ℕ → ℕ
parent i = (i - 1) / 2

unfoldable pub heap_empty : List ℕ → Bool
heap_empty items = length items == 0

-- The loop of `heap_push` at index `i`, with fuel.
pub sift_up : Less → ℕ → List ℕ → ℕ → List ℕ
sift_up less zero items i = items
sift_up less (suc fuel) items i =
    let rest = sift_up less fuel (swap items i (parent i)) (parent i) in
    let step = if less (at items i) (at items (parent i)) then rest else items in
    if ltb 0 i then step else items

unfoldable pub heap_push : Less → List ℕ → ℕ → List ℕ
unfolding sift_up swap
heap_push less items v = sift_up less (length items + 1) (items ++ v ∷ []) (length items)

-- The least of `i` and its children, as one round of `heap_pop` finds it.
pub least_child : Less → List ℕ → ℕ → ℕ
least_child less items i =
    let l = 2 * i + 1 in
    let r = l + 1 in
    let m = if ltb l (length items) && less (at items l) (at items i) then l else i in
    if ltb r (length items) && less (at items r) (at items m) then r else m

-- The loop of `heap_pop` at index `i`, with fuel.
pub sift_down : Less → ℕ → List ℕ → ℕ → List ℕ
sift_down less zero items i = items
sift_down less (suc fuel) items i =
    let m = least_child less items i in
    let rest = sift_down less fuel (swap items i m) m in if m == i then items else rest

-- `none` is the failed assertion on an empty heap.
unfoldable pub heap_pop : Less → List ℕ → Option (ℕ × List ℕ)
unfolding sift_down least_child swap
heap_pop less items =
    let last = length items - 1 in
    if length items == 0
    then none
    else some
        (at items 0, sift_down less (length items) (take last (set items 0 (at items last))) 0)
