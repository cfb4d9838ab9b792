-- ===== src/Policies/Prio/Deadline.antt =====
-- src/policies/priority.c: the deadline of a preemptive slice, the next instant at which a queued process
-- gains a level.
use native.Mathlib.Nat.{div-add-mod', mod-lt, suc-mul, add-mul}
use preemptive_and_non_preem.Base.{
  ℕ, ◌+◌, ◌-◌, ◌*◌, ◌/◌, ◌%◌, ◌<◌, ◌≤◌, ◌≡◌, refl, ◌∙◌, true, ltb, Bool-cases, inl, inr,
  if◌then◌else◌, arith, some, none, List,
}
use preemptive_and_non_preem.Base.Int.{ℤ, pos, negsuc, pos_part, ◌-ℤ◌, ◌+ℤ◌, ◌≤ℤ◌, ltb_ℤ}
use preemptive_and_non_preem.Util.Checked.{ck_add_i64}
use preemptive_and_non_preem.Core.{Process}
use preemptive_and_non_preem.Policy.{no_deadline}
use preemptive_and_non_preem.Policies.Prio.{limit_at, deadline_at}
use preemptive_and_non_preem.Policies.Prio.Tree.{Prio, max_r_below, max_r}
use preemptive_and_non_preem.Policies.Prio.Shape.{Has}
use preemptive_and_non_preem.Policies.Prio.Greatest.{
  max_r_from-bounds, max_r-bounds, max_r_from-below, max_r-queued,
}
use preemptive_and_non_preem.Policies.Prio.Sound.{IsSound}
use preemptive_and_non_preem.Policies.Prio.Effective.{effective, quotient_lem, remainder_of}

-- A quotient that stays where it is as long as the next multiple is not reached.
steady_lem :
    (w since now t k rem pq nq : ℕ)
    → since ≤ now
    → now ≤ t
    → rem < k
    → w + nq * k ≡ since + pq * k + rem
    → now % k + rem + (t - now) < (if ltb rem (k - now % k) then k else k + k)
    → (w + (t - since)) / k ≡ (w + (now - since)) / k
steady_lem w since now t k rem pq nq past later small whole short =
    let big : 0 < k = omega (arith, small) in
    let part = div-add-mod' now k in
    let below = mod-lt now big in
    let sum = add-mul (now / k) pq k in
    let more = suc-mul (now / k + pq) k in
    elim (Bool-cases (ltb rem (k - now % k))) [
      | inl low ↦
          let small_now : now % k + rem < k = ground (arith, low, below) in
          let short_k : now % k + rem + (t - now) < k = rw low at short in
          let m = now / k + pq in
          let q1 =
            quotient_lem (w + (t - since)) k nq m (now % k + rem + (t - now)) short_k
              (omega (arith, whole, past, later, sum, part)) in
          let q0 =
            quotient_lem (w + (now - since)) k nq m (now % k + rem) small_now
              (omega (arith, whole, past, sum, part)) in
          omega (arith, q0, q1)
      | inr high ↦
          let large_now : k ≤ now % k + rem = ground (arith, high, below, small) in
          let short_k : now % k + rem + (t - now) < k + k = rw high at short in
          let m = now / k + pq + 1 in
          let q1 =
            quotient_lem (w + (t - since)) k nq m (now % k + rem + (t - now) - k)
              (omega (arith, short_k, large_now))
              (omega (arith, whole, past, later, sum, part, more, large_now)) in
          let q0 =
            quotient_lem (w + (now - since)) k nq m (now % k + rem - k)
              (omega (arith, below, small, large_now))
              (omega (arith, whole, past, sum, part, more, large_now)) in
          omega (arith, q0, q1)
    ]

-- A time before the deadline is before the end of the step.
before_step :
    (now t : ℕ) (step : ℤ)
    → pos 0 ≤ℤ step
    → t < (elim (ck_add_i64 (pos now) step) [ none ↦ no_deadline | some d ↦ pos_part d ])
    → t < now + pos_part step
unfolding ck_add_i64 ◌+ℤ◌ ◌-ℤ◌
before_step now t step h early = ground (arith, h, early)

-- The length of the step against one process, in the four cases of `deadline_at`.
step_lem :
    (r_low r_top : ℤ) (k j rem top d : ℕ)
    → j < k
    → rem < k
    → r_top ≡ pos top
    → top < k
    → rem ≤ top
    → ltb_ℤ r_low (pos (k - j)) ≡ true
    → (ltb rem (k - j) ≡ true → pos rem ≤ℤ r_low)
    → (pos 0
        ≤ℤ (if ltb_ℤ r_low (pos 0) then pos k -ℤ (r_top -ℤ pos (k - j)) else pos (k - j) -ℤ r_low))
      × (d
            < pos_part (
                if ltb_ℤ r_low (pos 0)
                then pos k -ℤ (r_top -ℤ pos (k - j))
                else pos (k - j) -ℤ r_low)
          → j + rem + d < (if ltb rem (k - j) then k else k + k))
unfolding ◌-ℤ◌
step_lem r_low r_top k j rem top d small_j small e small_top le below low = (
  ground (arith, e, below, small_top, small_j),
  λ h. ground (arith, h, e, le, low, small, small_j),
)

-- For a sound state with aging, a queued process that joined by the present time, and any time from now
-- on and before `deadline_at`: the effective priority of that process is still what it is now.
pub deadline_at-steady :
    {procs : List Process} (s : Prio) (now t y : ℕ)
    → IsSound procs s
    → ltb 0 s.aging ≡ true
    → Has s.root y
    → s.ready_since y ≤ now
    → now ≤ t
    → t < deadline_at s now
    → effective s t y ≡ effective s now y
unfolding deadline_at effective max_r_below
deadline_at-steady s now t y sound ages q past later early =
    let k = s.aging in
    let limit = limit_at s now in
    let below : now % k < k = mod-lt now (ground (arith, ages)) in
    let (rem, small, is_rem, whole) = remainder_of s y ages (sound.keyed y q) in
    let (z, in_queue, is_top) = max_r-queued s y q in
    let (top, small_top, is_top_rem, _) = remainder_of s z ages (sound.keyed z in_queue) in
    let le = rw (is_rem, is_top, is_top_rem) at (max_r-bounds s limit y sound.tree q) in
    let (forward, reach) =
      step_lem (max_r_below s limit) (max_r s) k (now % k) rem top (t - now) below small
        (is_top ∙ is_top_rem) small_top (omega (arith, le))
        (max_r_from-below s limit s.root (negsuc 0) (ground (arith, below)))
        (λ low. rw is_rem at (
          max_r_from-bounds s limit s.root (negsuc 0) y sound.tree
            (q, rw is_rem (ground (arith, low))))) in
    let short = before_step now t _ forward early in
    let same =
      steady_lem (s.waited y) (s.ready_since y) now t k rem _ _ past later small whole
        (reach (omega (arith, short, later))) in
    rw (ages, same) refl
