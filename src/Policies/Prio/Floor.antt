-- ===== src/Policies/Prio/Floor.antt =====
-- src/policies/priority.c: the floor division of `enqueue`, written as c = q * K + r with 0 <= r < K.
use native.Mathlib.Nat.{div-add-mod', mod-lt, zero-div, zero-mod, suc-mul, zero-mul}
use preemptive_and_non_preem.Base.{
  ℕ, zero, suc, ◌⊎◌, inl, inr, ◌+◌, ◌-◌, ◌*◌, ◌/◌, ◌%◌, ◌<◌, ◌≡◌, refl, arith,
}
use preemptive_and_non_preem.Base.Int.{
  ℤ, pos, negsuc, pos_part, neg_part, sub_ℕ, ◌-ℤ◌, ◌*ℤ◌, ◌/ℤ◌, ◌%ℤ◌,
}
use preemptive_and_non_preem.Policies.Prio.{floor_div}

-- The quotient and the remainder of a floor division.
pub record FloorDivision (c : ℤ) (k : ℕ) : Type 0 where
  pub rem : ℕ
  pub small : rem < k
  pub is_rem : c -ℤ floor_div c k *ℤ k ≡ pos rem
  pub whole :
      pos_part c + neg_part (floor_div c k) * k ≡ neg_part c + pos_part (floor_div c k) * k + rem

zero_or_more : (n : ℕ) → (n ≡ 0) ⊎ (0 < n)
zero_or_more zero = inl refl
zero_or_more (suc n) = inr (omega arith)

module _ (k : ℕ) (big : 0 < k) where
  floor_pos : (n : ℕ) → floor_div (pos n) k ≡ pos (n / k)
  unfolding floor_div ◌-ℤ◌ ◌/ℤ◌ ◌%ℤ◌
  floor_pos n = ground (arith, zero-div k, zero-mod k)

  floor_exact : (m : ℕ) → suc m % k ≡ 0 → floor_div (negsuc m) k ≡ sub_ℕ 0 (suc m / k)
  unfolding floor_div ◌-ℤ◌ ◌/ℤ◌ ◌%ℤ◌
  floor_exact m h = ground (arith, zero-div k, zero-mod k, h)

  floor_neg : (m : ℕ) → 0 < suc m % k → floor_div (negsuc m) k ≡ negsuc (suc m / k)
  unfolding floor_div ◌-ℤ◌ ◌/ℤ◌ ◌%ℤ◌
  floor_neg m h = ground (arith, zero-div k, zero-mod k, h)

  exact_parts : (d : ℕ) → (pos_part (sub_ℕ 0 d) ≡ 0) × (neg_part (sub_ℕ 0 d) ≡ d)
  exact_parts d = ground arith

  exact_rem : (m : ℕ) → suc m % k ≡ 0 → negsuc m -ℤ sub_ℕ 0 (suc m / k) *ℤ k ≡ pos 0
  unfolding ◌-ℤ◌ ◌*ℤ◌
  exact_rem m h =
      let (p, n) = exact_parts (suc m / k) in
      rw (p, n) (ground (arith, div-add-mod' (suc m) k, h, zero-mul k))

  exact_whole :
      (m : ℕ)
      → suc m % k ≡ 0
      → 0 + neg_part (sub_ℕ 0 (suc m / k)) * k ≡ suc m + pos_part (sub_ℕ 0 (suc m / k)) * k + 0
  exact_whole m h =
      let (p, n) = exact_parts (suc m / k) in
      rw (p, n) (omega (arith, div-add-mod' (suc m) k, h, zero-mul k))

  -- The division by a positive number is a floor division.
  pub floor_div_correct : (c : ℤ) → FloorDivision c k
  unfolding ◌-ℤ◌ ◌*ℤ◌
  floor_div_correct (pos n) = record {
    rem = n % k;
    small = mod-lt n big;
    is_rem = rw (floor_pos n) (ground (arith, div-add-mod' n k));
    whole = rw (floor_pos n) (omega (arith, div-add-mod' n k));
  }
  floor_div_correct (negsuc m) = elim ((zero_or_more (suc m % k))) [
    | inl none_left ↦ record {
      rem = 0;
      small = big;
      is_rem = rw (floor_exact m none_left) (exact_rem m none_left);
      whole = rw (floor_exact m none_left) (exact_whole m none_left);
    }
    | inr some_left ↦ record {
      rem = k - suc m % k;
      small = omega (arith, mod-lt (suc m) big);
      is_rem = rw (floor_neg m some_left) (
          ground
            (arith, div-add-mod' (suc m) k, mod-lt (suc m) big, suc-mul (suc m / k) k, zero-mul k));
      whole = rw (floor_neg m some_left) (
          omega
            (arith, div-add-mod' (suc m) k, mod-lt (suc m) big, suc-mul (suc m / k) k, zero-mul k));
    }
  ]
