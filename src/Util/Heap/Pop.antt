-- ===== src/Util/Heap/Pop.antt =====
-- `heap_pop` returns a least entry and leaves a heap of the others.
use mathlib.Core.Logic.{◌≢◌, ◌⊎◌}
use mathlib.Core.List.Perm
use mathlib.Core.Path.{subst}
use preemptive_and_non_preem.Base.{
  ℕ, zero, suc, ◌+◌, ◌-◌, ◌*◌, ◌≤◌, ◌<◌, ◌≡◌, refl, sym, ap, ◌∙◌, true, false, none, some, List, [],
  ◌∷◌, ◌++◌, Perm, arith, length, length-set, length-take, get_or-set, get_or-take, take-get_or,
  set, take, concat-perm, set-perm, ltb, ◌==◌, if_holds, ==→≡, ◌&&◌, if◌then◌else◌,
}
use preemptive_and_non_preem.Util.Heap.{Less, at, swap, parent, least_child, sift_down, heap_pop}
use preemptive_and_non_preem.Util.Heap.Order.{
  IsOrder, IsHeap, IsBridged, less_refl, length-swap, at-swap, swap-perm, root_least,
}

-- Only the edges below `i` may be out of order.
record Sinking (less : Less) (items : List ℕ) (i : ℕ) : Type 0 where
  edges :
      (c : ℕ)
      → 0 < c
      → c < length items
      → parent c ≢ i
      → less (at items c) (at items (parent c)) ≡ false
  bridged : IsBridged less items i

-- `m` is a child of `i` that goes before `i`, and no child of `i` goes before it.
record IsLeast (less : Less) (items : List ℕ) (i m : ℕ) : Type 0 where
  inside : m < length items
  child : (m ≡ 2 * i + 1) ⊎ (m ≡ 2 * i + 2)
  below : less (at items m) (at items i) ≡ true
  least : (c : ℕ) → 0 < c → c < length items → parent c ≡ i → less (at items c) (at items m) ≡ false

-- Either `i` is in order already, or the round swaps with the least child.
data Round (less : Less) (items : List ℕ) (i : ℕ) : ℕ → Type 0 where
  settled :
      ((c : ℕ) → 0 < c → c < length items → parent c ≡ i → less (at items c) (at items i) ≡ false)
      → Round less items i i
  sinks : {m : ℕ} → IsLeast less items i m → Round less items i m

module _ (less : Less) (o : IsOrder less) (items : List ℕ) (i : ℕ) where
  -- what the children are
  children : (c : ℕ) → 0 < c → parent c ≡ i → (c ≡ 2 * i + 1) ⊎ (c ≡ 2 * i + 2)
  children c p e = omega arith

  least_child-Round : i < length items → Round less items i (least_child less items i)
  unfolding least_child
  least_child-Round hi =
      let l = 2 * i + 1 in
      let r = l + 1 in
      let self = less_refl less o in
      if_holds
        (λ m.
          Round less items i
            (if ltb r (length items) && less (at items r) (at items m) then r else m))
        (ltb l (length items) && less (at items l) (at items i))
        (λ left.
          if_holds (λ m. Round less items i m)
            (ltb r (length items) && less (at items r) (at items l))
            (λ right. Round.sinks (record {
              inside = ground arith;
              child = omega arith;
              below = ground (
                arith,
                o.asym (at items r) (at items l),
                o.trans (at items i) (at items r) (at items l),
              );
              least = λ c p q e.
                  ground
                    (arith, children c p e, self (at items r), o.asym (at items r) (at items l));
            }))
            (λ right. Round.sinks (record {
              inside = ground arith;
              child = omega arith;
              below = ground arith;
              least = λ c p q e. ground (arith, children c p e, self (at items l));
            })))
        (λ left.
          if_holds (λ m. Round less items i m)
            (ltb r (length items) && less (at items r) (at items i))
            (λ right. Round.sinks (record {
              inside = ground arith;
              child = omega arith;
              below = ground arith;
              least = λ c p q e. ground (
                arith,
                children c p e,
                self (at items r),
                o.asym (at items r) (at items i),
                o.trans (at items r) (at items i) (at items l),
              );
            }))
            (λ right. Round.settled (λ c p q e. ground (arith, children c p e))))

swap-Sinking :
    (less : Less) (items : List ℕ) (i m : ℕ)
    → i < length items
    → Sinking less items i
    → IsLeast less items i m
    → IsOrder less
    → Sinking less (swap items i m) m
swap-Sinking less items i m hi v s o =
    let size = length-swap items i m in
    let read = at-swap items i m hi s.inside in
    record {
      edges = λ c p q r. ground (
        arith,
        size,
        read c,
        read (parent c),
        v.edges c,
        v.bridged m,
        s.least c,
        s.child,
        s.inside,
        o.asym (at items m) (at items i),
      );
      bridged = λ c p q r t. ground (arith, size, read c, read (parent m), v.edges c, s.child);
    }

sift_down_restores :
    (less : Less)
    → IsOrder less
    → (fuel : ℕ) (items : List ℕ) (i : ℕ) → i < length items
    → length items ≤ fuel + i
    → Sinking less items i
    → IsHeap less (sift_down less fuel items i) × Perm (sift_down less fuel items i) items
unfolding sift_down
sift_down_restores less o zero items i hi f v = absurd (omega arith)
sift_down_restores less o (suc fuel) items i hi f v =
    go (least_child less items i) (least_child-Round less o items i hi) (λ m s.
      let size = length-swap items i m in
      let (heap, perm) =
        sift_down_restores less o fuel (swap items i m) m (rw size s.inside)
          (omega (arith, size, s.child, f)) (swap-Sinking less items i m hi v s o) in
      (heap, Perm.trans perm (swap-perm items i m hi s.inside)))
  where
    Restored : List ℕ → Type 0
    Restored r = IsHeap less r × Perm r items

    go :
        (m : ℕ)
        → Round less items i m
        → ((m : ℕ) → IsLeast less items i m → Restored (sift_down less fuel (swap items i m) m))
        → Restored (if m == i then items else sift_down less fuel (swap items i m) m)
    go m (Round.settled h) ih =
        if_holds Restored (i == i) (λ _. (λ c p q. ground (arith, h c, v.edges c), Perm.rfl))
          (λ e. absurd (ground arith))
    go m (Round.sinks s) ih =
        if_holds Restored (m == i) (λ e. absurd (omega (arith, s.child, ==→≡ e))) (λ _. ih m s)

pub sift_down-nil : (less : Less) (fuel : ℕ) → sift_down less fuel [] 0 ≡ []
unfolding sift_down least_child
sift_down-nil less zero = refl
sift_down-nil less (suc fuel) = refl

-- From the root the loop needs no entry to be there.
sift_root_restores :
    (less : Less)
    → IsOrder less
    → (fuel : ℕ) (items : List ℕ) → length items ≤ fuel
    → Sinking less items 0
    → IsHeap less (sift_down less fuel items 0) × Perm (sift_down less fuel items 0) items
sift_root_restores less o fuel [] f v =
    rw (sift_down-nil less fuel) (λ c p q. absurd (omega arith), Perm.rfl)
sift_root_restores less o fuel (x ∷ items) f v =
    sift_down_restores less o fuel (x ∷ items) 0 (omega arith) (omega arith) v

module _ (items : List ℕ) (n : ℕ) (size : length items ≡ suc n) where
  -- what `heap_pop` hands to its loop
  abbrev pub cut : List ℕ
  cut = take n (set items 0 (at items n))

  pub length-cut : length cut ≡ n
  length-cut = length-take n _ (omega (arith, length-set items 0 (at items n)))

  at-cut : (c : ℕ) → 0 < c → c < n → at cut c ≡ at items c
  at-cut c p q = ground (
    arith,
    get_or-take n (set items 0 (at items n)) c 0 q,
    get_or-set items 0 c (at items n) 0 (omega arith),
  )

  pub cut-perm : Perm (at items 0 ∷ cut) items
  cut-perm =
      let last = at items n in
      let mid = set items 0 last in
      let whole = take-get_or n mid 0 (length-set items 0 last ∙ size) in
      let end : at mid n ≡ last = ground (arith, get_or-set items 0 n last 0) in
      let joined : cut ++ last ∷ [] ≡ mid = ap (λ v. cut ++ v ∷ []) (sym end) ∙ whole in
      let split : Perm mid (last ∷ cut) =
        subst (λ r. Perm r (last ∷ cut)) joined (concat-perm cut last) in
      let traded = set-perm items 0 last 0 (omega arith) in
      Perm.cons_inv (
        Perm.trans (Perm.swap (at items 0) last cut)
          (Perm.trans (Perm.cons (at items 0) (Perm.symm split)) traded))

  cut-Sinking : (less : Less) → IsHeap less items → Sinking less cut 0
  cut-Sinking less h = record {
    edges = λ c p q r. ground (arith, length-cut, at-cut c, at-cut (parent c), h c);
    bridged = λ c p q r s. absurd (omega arith);
  }

-- What `heap_pop` returns: an entry that nothing in the heap goes before, and a heap of the rest.
pub record Popped (less : Less) (items : List ℕ) (r : ℕ × List ℕ) : Type 0 where
  pub heap : IsHeap less r.1
  pub perm : Perm (r.0 ∷ r.1) items
  pub least : (i : ℕ) → i < length items → less (at items i) r.0 ≡ false

-- Popping a non-empty heap succeeds, returns an entry that no entry goes before, and leaves a heap
-- of exactly the others; popping an empty one fails its assertion.
pub heap_pop_correct :
    (less : Less) (items : List ℕ)
    → IsOrder less
    → IsHeap less items
    → (0 < length items → (r : ℕ × List ℕ) × (heap_pop less items ≡ some r) × Popped less items r)
      × (length items ≡ 0 → heap_pop less items ≡ none)
unfolding heap_pop
heap_pop_correct less items o h = (
  λ left.
      let n = length items - 1 in
      let size : length items ≡ suc n = omega arith in
      let (heap, perm) =
        sift_root_restores less o (length items) (cut items n size)
          (omega (arith, length-cut items n size)) (cut-Sinking items n size less h) in
      (
        (at items 0, sift_down less (length items) (cut items n size) 0),
        rw (==-zero left),
        record {
          heap = heap;
          perm = Perm.trans (Perm.cons (at items 0) perm) (cut-perm items n size);
          least = λ i p. root_least less o items i h p;
        },
      ),
  λ e. rw e,
)
  where
    ==-zero : 0 < length items → (length items == 0) ≡ false
    ==-zero p = ground arith
