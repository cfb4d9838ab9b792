-- ===== src/Policies/Heaps.antt =====
-- What the heaps of the policies share: an order by a key and then a tie, and a key that changes only
-- for a process that is not in the heap.
pub mod Stride
pub mod Cfs
pub mod Shortest
use preemptive_and_non_preem.Base.{
  ℕ, zero, suc, ◌+◌, ◌<◌, ◌≡◌, Bool, true, false, List, [], ◌∷◌, arith, length, get_or, ltb, ◌==◌,
  if◌then◌else◌, inl, inr, Bool-cases, ==→≡, ap,
}
use preemptive_and_non_preem.Base.Weight.{weigh, count, indicator}
use preemptive_and_non_preem.Util.Heap.{Less, at, parent}
use preemptive_and_non_preem.Util.Heap.Order.{IsOrder, IsHeap}

-- By `key`, then by `tie`.
abbrev pub lex : (ℕ → ℕ) → (ℕ → ℕ) → Less
lex key tie a b = if key a == key b then ltb (tie a) (tie b) else ltb (key a) (key b)

pub lex-IsOrder : (key tie : ℕ → ℕ) → IsOrder (lex key tie)
lex-IsOrder key tie = record { asym = λ a b h. ground arith; trans = λ a b c h k. ground arith }

-- An entry of a list that lists no `p` is not `p`.
pub at-apart :
    (p : ℕ) (items : List ℕ) (c : ℕ)
    → count p items ≡ 0
    → c < length items
    → (p == at items c) ≡ false
unfolding weigh
at-apart p [] c none_there h = absurd (omega arith)
at-apart p (x ∷ xs) zero none_there h = ground (arith, none_there)
at-apart p (x ∷ xs) (suc c) none_there h =
    at-apart p xs c (omega (arith, none_there)) (omega (arith, h))

-- A change of the key of a process that is not in the heap leaves the heap in order.
pub rekeyed-IsHeap :
    (key key' tie : ℕ → ℕ) (p : ℕ) (items : List ℕ)
    → count p items ≡ 0
    → ((x : ℕ) → (p == x) ≡ false → key' x ≡ key x)
    → IsHeap (lex key tie) items
    → IsHeap (lex key' tie) items
rekeyed-IsHeap key key' tie p items none_there same h c lo hi =
    let one = same (at items c) (at-apart p items c none_there hi) in
    let two =
      same (at items (parent c)) (at-apart p items (parent c) none_there (omega (arith, hi))) in
    rw (one, two) (h c lo hi)
