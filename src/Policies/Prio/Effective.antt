-- ===== src/Policies/Prio/Effective.antt =====
-- src/policies/priority.c: the effective priority of the header comment, and the process that
-- `prio_next_slice` chooses by it.
use native.Mathlib.Nat.{
  div-add-mod', mod-lt, add-mul-div_right, mul-add-div_right, div-eq_of_lt, suc-mul, add-mul,
}
use preemptive_and_non_preem.Base.{
  ℕ, ◌+◌, ◌-◌, ◌*◌, ◌/◌, ◌%◌, ◌<◌, ◌≤◌, ◌≡◌, refl, sym, ap, ◌∙◌, true, ltb, Bool-cases, inl, inr,
  if◌then◌else◌, arith,
}
use preemptive_and_non_preem.Base.Int.{
  ℤ, pos, pos_part, neg_part, ◌-ℤ◌, ◌+ℤ◌, ltb_ℤ, IsI64, i64_min, i64_max,
}
use preemptive_and_non_preem.Util.Checked.{ck_sub_i64}
use preemptive_and_non_preem.Policy.{proc_at}
use preemptive_and_non_preem.Policies.Prio.{floor_div, limit_at}
use preemptive_and_non_preem.Policies.Prio.Tree.{Prio, sat_sub}
use preemptive_and_non_preem.Policies.Prio.Sound.{IsKeyed, offset}
use preemptive_and_non_preem.Policies.Prio.Choice.{bump}
use preemptive_and_non_preem.Policies.Prio.Floor.{floor_div_correct}

-- How long a queued process has waited in its burst at `now`.
abbrev pub waited_at : Prio → ℕ → ℕ → ℕ
waited_at s now y = s.waited y + (now - s.ready_since y)

-- effective = priority - floor(waited / K), and the priority itself without aging.
unfoldable pub effective : Prio → ℕ → ℕ → ℤ
unfolding ◌-ℤ◌
effective s now y =
    let priority = (proc_at s.procs y).priority in
    if ltb 0 s.aging then priority -ℤ pos (waited_at s now y / s.aging) else priority

-- A priority less the levels gained that is no limit of `int64_t`, so that it is not saturated.
abbrev pub IsInRange : Prio → ℕ → Type 0
IsInRange s y =
    IsI64 (s.base y) × (ltb_ℤ i64_min (s.base y) ≡ true) × (ltb_ℤ (s.base y) i64_max ≡ true)

-- A quotient that is determined by the equation.
pub quotient_lem : (w k b m e : ℕ) → e < k → w + b * k ≡ m * k + e → w / k + b ≡ m
quotient_lem w k b m e h eq =
    let big : 0 < k = omega (arith, h) in
    sym (add-mul-div_right w b big)
    ∙ ap (λ x. x / k) eq
    ∙ mul-add-div_right big m e
    ∙ ap (λ x. m + x) (div-eq_of_lt h)
    ∙ omega arith

sat_sub-inner :
    (a b c : ℤ) → sat_sub a b ≡ c → ltb_ℤ i64_min c ≡ true → ltb_ℤ c i64_max ≡ true → c ≡ a -ℤ b
unfolding sat_sub ck_sub_i64 ◌-ℤ◌ ◌+ℤ◌
sat_sub-inner a b c h low high = ground (arith, h, low, high)

-- The levels that a process has gained, from the division of its offset.
levels_lem :
    (w since now k rem pq nq : ℕ)
    → since ≤ now
    → rem < k
    → w + nq * k ≡ since + pq * k + rem
    → (w + (now - since)) / k + nq ≡ now / k + pq + (if ltb rem (k - now % k) then 0 else 1)
levels_lem w since now k rem pq nq past small whole =
    let big : 0 < k = omega (arith, small) in
    let part = div-add-mod' now k in
    let below = mod-lt now big in
    let sum = add-mul (now / k) pq k in
    let more = suc-mul (now / k + pq) k in
    elim (Bool-cases (ltb rem (k - now % k))) [
      | inl low ↦ rw low (
          quotient_lem (w + (now - since)) k nq (now / k + pq + 0) (now % k + rem)
            (ground (arith, low, below)) (omega (arith, whole, past, sum, part)))
      | inr high ↦
          let h : k ≤ now % k + rem = ground (arith, high, below, small) in
          rw high (
            quotient_lem (w + (now - since)) k nq (now / k + pq + 1) (now % k + rem - k)
              (ground (arith, high, below, small)) (omega (arith, whole, past, sum, part, more, h)))
    ]

offset_parts :
    (w since : ℕ) → pos_part (pos w -ℤ pos since) + since ≡ neg_part (pos w -ℤ pos since) + w
unfolding ◌-ℤ◌
offset_parts w since = ground arith

level_lem :
    (p q b : ℤ) (x n m : ℕ)
    → b ≡ p -ℤ q
    → x + neg_part q ≡ n + pos_part q + m
    → p -ℤ pos x ≡ b -ℤ pos m -ℤ pos n
unfolding ◌-ℤ◌
level_lem p q b x n m h e = ground (arith, h, e)

-- What a queued process's `r` is: the remainder of its offset by the aging step.
pub remainder_of :
    (s : Prio) (y : ℕ)
    → ltb 0 s.aging ≡ true
    → IsKeyed s y
    → (rem : ℕ) × (rem < s.aging)
      × (s.r y ≡ pos rem)
      × (s.waited y + neg_part (floor_div (offset s y) s.aging) * s.aging
          ≡ s.ready_since y + pos_part (floor_div (offset s y) s.aging) * s.aging + rem)
remainder_of s y ages keyed =
    let (key_r, key_base) = rw ages at keyed in
    let fl = floor_div_correct s.aging (ground (arith, ages)) (offset s y) in
    (
      fl.rem,
      fl.small,
      key_r ∙ fl.is_rem,
      omega (arith, fl.whole, offset_parts (s.waited y) (s.ready_since y)),
    )

bump_lem :
    (s : Prio) (y : ℕ) (limit : ℤ) (rem l : ℕ)
    → s.r y ≡ pos rem
    → limit ≡ pos l
    → bump s limit y ≡ pos (if ltb rem l then 0 else 1)
bump_lem s y limit rem l h e = rw (h, e) (ground arith)

module _ (s : Prio) (now y : ℕ) (ages : ltb 0 s.aging ≡ true) (keyed : IsKeyed s y)
    (past : s.ready_since y ≤ now) (fits : IsInRange s y) where
  -- The header comment's formula: the effective priority is A, less the levels that all have gained,
  -- less one where `r` has reached the threshold.
  pub effective-bump :
      effective s now y ≡ s.base y -ℤ bump s (limit_at s now) y -ℤ pos (now / s.aging)
  unfolding effective
  effective-bump =
      let k = s.aging in
      let q = floor_div (offset s y) k in
      let (key_r, key_base) = rw ages at keyed in
      let (rem, small, is_rem, whole) = remainder_of s y ages keyed in
      let base =
        sat_sub-inner (proc_at s.procs y).priority q (s.base y) (sym key_base) fits.1 fits.2 in
      let gained =
        levels_lem (s.waited y) (s.ready_since y) now k rem (pos_part q) (neg_part q) past small
          whole in
      rw (ages, bump_lem s y (limit_at s now) rem (k - now % k) is_rem refl)
        (level_lem (proc_at s.procs y).priority q (s.base y) (waited_at s now y / k) (now / k) _
          base gained)
