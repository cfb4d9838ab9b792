-- ===== src/Policies/Vruntime.antt =====
-- src/policies/cfs.c: `vruntime_delta`, which divides before it shifts so that nothing overflows.
use native.Mathlib.Nat.{
  div-add-mod, add-mul-div_left, mod-lt, mod-eq_of_lt, mul-div-le, div-le_of_le-mul,
  mul-le-mul_right,
}
use preemptive_and_non_preem.Base.{ℕ, ◌+◌, ◌*◌, ◌/◌, ◌%◌, ◌^◌, ◌<◌, ◌≤◌, ◌≡◌, sym, ap, ◌∙◌, arith}
use preemptive_and_non_preem.Base.Int.{int64_max}
use preemptive_and_non_preem.Policies.Cfs.{cfs_max_cpu, whole_part, part_left, vruntime_delta}

-- Shifting and then dividing, without a limit on the width, is the sum of the two terms.
terms_sum : (ran w : ℕ) → 0 < w → (ran * 2 ^ 26) / w ≡ ((ran % w) * 2 ^ 26) / w + (ran / w) * 2 ^ 26
terms_sum ran w positive =
    let whole : ran * 2 ^ 26 ≡ (ran % w) * 2 ^ 26 + w * ((ran / w) * 2 ^ 26) =
      ap (λ (x : ℕ). x * 2 ^ 26) (sym (div-add-mod ran w)) ∙ omega arith in
    ap (λ (x : ℕ). x / w) whole
    ∙ add-mul-div_left ((ran % w) * 2 ^ 26) ((ran / w) * 2 ^ 26) positive

-- For up to `CFS_MAX_CPU` ticks and a weight from 15 to 88761, as the table has them: both shifts and
-- the sum that `vruntime_delta` makes in 64 bits are at most `INT64_MAX`, and it returns the whole part
-- of `ran * 2 ^ 26 / w`.
pub vruntime_delta-exact :
    (ran w : ℕ)
    → ran ≤ cfs_max_cpu
    → 15 ≤ w
    → w ≤ 88_761
    → (vruntime_delta ran w ≡ (ran * 2 ^ 26) / w)
      × (vruntime_delta ran w ≤ int64_max)
      × (whole_part ran w ≡ (ran / w) * 2 ^ 26)
      × (whole_part ran w ≤ int64_max)
      × (part_left ran w ≡ (ran % w) * 2 ^ 26)
      × (part_left ran w ≤ int64_max)
unfolding vruntime_delta whole_part part_left
vruntime_delta-exact ran w short heavy light =
    let positive : 0 < w = omega (arith, heavy) in
    let q = ran / w in
    let m = ran % w in
    let product : 15 * q ≤ w * q = mul-le-mul_right q heavy in
    let below : q * 2 ^ 26 ≤ 5_000_000_000_000_000_000 =
      omega (arith, product, mul-div-le ran w, short) in
    let small : m < w = mod-lt ran positive in
    let left : m * 2 ^ 26 ≤ 6_000_000_000_000 = omega (arith, small, light) in
    let term : (m * 2 ^ 26) / w ≤ 2 ^ 26 = div-le_of_le-mul w (omega (arith, small)) in
    let shifted : whole_part ran w ≡ q * 2 ^ 26 = mod-eq_of_lt (omega (arith, below)) in
    let dividend : part_left ran w ≡ m * 2 ^ 26 = mod-eq_of_lt (omega (arith, left)) in
    let quotient : part_left ran w / w ≡ (m * 2 ^ 26) / w = ap (λ (x : ℕ). x / w) dividend in
    let sum : vruntime_delta ran w ≡ whole_part ran w + part_left ran w / w =
      mod-eq_of_lt (omega (arith, shifted, quotient, term, below)) in
    (
      omega (arith, sum, shifted, quotient, terms_sum ran w positive),
      omega (arith, sum, shifted, quotient, term, below),
      shifted,
      omega (arith, shifted, below),
      dividend,
      omega (arith, dividend, left),
    )
