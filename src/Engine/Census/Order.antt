-- ===== src/Engine/Census/Order.antt =====
-- The order of arrival that `sim_run` sorts lists every process once.
use preemptive_and_non_preem.Base.{
  ℕ, zero, suc, ◌+◌, ◌≤◌, ◌<◌, ◌≡◌, refl, ◌∙◌, arith, length, inl, inr, Bool-cases, ◌==◌, true,
  false, List, ltb, leb, if◌then◌else◌, get_or, ◌⊎◌,
}
use native.Mathlib.Decide.{dec_lt}
use preemptive_and_non_preem.Base.Sort.{qsort-perm, qsort-InOrder, InOrder-at}
use preemptive_and_non_preem.Base.Weight.{weigh, weigh-perm, weigh-one, count, indicator}
use preemptive_and_non_preem.Core.{Workload}
use preemptive_and_non_preem.Policy.{arrival_of, pid_of}
use preemptive_and_non_preem.Engine.Run.{order_of, not_after, indices}
use preemptive_and_non_preem.Engine.Census.{IsOrderOf}

length-indices : (n i : ℕ) → length (indices n i) ≡ n
length-indices zero i = refl
length-indices (suc n) i = omega (arith, length-indices n (i + 1))

count-indices_below : (p n i : ℕ) → p < i → count p (indices n i) ≡ 0
unfolding weigh
count-indices_below p zero i h = refl
count-indices_below p (suc n) i h = ground (arith, count-indices_below p n (i + 1))

count-indices_above : (p n i : ℕ) → i + n ≤ p → count p (indices n i) ≡ 0
unfolding weigh
count-indices_above p zero i h = refl
count-indices_above p (suc n) i h = ground (arith, count-indices_above p n (i + 1))

count-indices : (p n i : ℕ) → i ≤ p → p < i + n → count p (indices n i) ≡ 1
unfolding weigh
count-indices p zero i lo hi = absurd (omega arith)
count-indices p (suc n) i lo hi = elim (Bool-cases (i == p)) [
  | inl e ↦ ground (arith, e, count-indices_below p n (i + 1))
  | inr e ↦
      let further : i + 1 ≤ p = ground (arith, e) in
      ground (arith, e, count-indices p n (i + 1) further (omega arith))
]

-- The order of arrival lists every index below the number of processes once.
pub order_of-IsOrderOf : (w : Workload) → IsOrderOf (length w.items) (order_of w)
unfolding order_of
order_of-IsOrderOf w =
    let n = length w.items in
    let same : (g : ℕ → ℕ) → weigh g (order_of w) ≡ weigh g (indices n 0) =
      λ g. weigh-perm g (qsort-perm (not_after w) (indices n 0)) in
    record {
      size = omega (
        arith,
        same (λ x. 1),
        weigh-one (order_of w),
        weigh-one (indices n 0),
        length-indices n 0,
      );
      once = λ p. elim (dec_lt p n) [
        | yes below ↦
            omega
              (arith, same (indicator p), count-indices p n 0 (omega arith) (omega (arith, below)))
        | no above ↦
            omega (arith, same (indicator p), count-indices_above p n 0 (omega (arith, above)))
      ];
      inside = λ p h. elim (dec_lt p n) [
        | yes below ↦ below
        | no above ↦
            absurd
              (omega (arith, same (indicator p), count-indices_above p n 0 (omega (arith, above))))
      ];
      every = λ p h. same (indicator p) ∙ count-indices p n 0 (omega arith) (omega (arith, h));
    }

not_after_trans :
    (a b c p q r : ℕ)
    → (if a == b then leb p q else ltb a b) ≡ true
    → (if b == c then leb q r else ltb b c) ≡ true
    → (if a == c then leb p r else ltb a c) ≡ true
not_after_trans a b c p q r h k = ground arith

not_after_total :
    (a b p q : ℕ)
    → (if a == b then leb p q else ltb a b) ≡ false
    → (if b == a then leb q p else ltb b a) ≡ true
not_after_total a b p q h = ground arith

-- At each two positions the arrivals ascend, and where they are equal the pids do.
abbrev pub IsByArrival : Workload → List ℕ → Type 0
IsByArrival w order =
    (i j : ℕ)
    → i < j
    → j < length w.items
    → (arrival_of w.items (get_or order i 0) < arrival_of w.items (get_or order j 0))
      ⊎ ((arrival_of w.items (get_or order i 0) ≡ arrival_of w.items (get_or order j 0))
          × (pid_of w.items (get_or order i 0) ≤ pid_of w.items (get_or order j 0)))

by_keys :
    (a b p q : ℕ) → (if a == b then leb p q else ltb a b) ≡ true → (a < b) ⊎ ((a ≡ b) × (p ≤ q))
by_keys a b p q h = ground arith

-- The order of arrival lists every index below the number of processes once, and no other, by
-- (arrival, pid).
pub order_of-IsByArrival :
    (w : Workload) → IsOrderOf (length w.items) (order_of w) × IsByArrival w (order_of w)
unfolding order_of not_after
order_of-IsByArrival w =
    let (arr, pid) : (ℕ → ℕ) × (ℕ → ℕ) = (arrival_of w.items, pid_of w.items) in
    let sorted =
      qsort-InOrder (not_after w)
        (λ x y z. not_after_trans (arr x) (arr y) (arr z) (pid x) (pid y) (pid z))
        (λ x y. not_after_total (arr x) (arr y) (pid x) (pid y)) (indices (length w.items) 0) in
    (
      order_of-IsOrderOf w,
      λ i j lt h.
          let (x, y) : ℕ × ℕ = (get_or (order_of w) i 0, get_or (order_of w) j 0) in
          by_keys (arr x) (arr y) (pid x) (pid y) (
            InOrder-at (not_after w) 0 (order_of w) i j sorted lt
              (omega (arith, h, (order_of-IsOrderOf w).size))),
    )
