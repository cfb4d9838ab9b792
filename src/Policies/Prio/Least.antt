-- ===== src/Policies/Prio/Least.antt =====
-- src/policies/priority.c: `prio_next_slice` chooses by the effective priority, then by arrival and pid.
use mathlib.Core.Option
use mathlib.Core.Path.{subst}
use preemptive_and_non_preem.Base.{
  ℕ, ◌/◌, ◌≤◌, ◌≡◌, sym, ap, ◌∙◌, true, false, ltb, Bool, if_holds, arith, Option, some, none, List,
}
use preemptive_and_non_preem.Base.Int.{ℤ, pos, ◌-ℤ◌, ltb_ℤ}
use preemptive_and_non_preem.Core.{Process}
use preemptive_and_non_preem.Policy.{View, Slice, earlier}
use preemptive_and_non_preem.Policies.Prio.{limit_at, pick, prio_next_slice, take_slice}
use preemptive_and_non_preem.Policies.Prio.Tree.{Prio, sat_sub, key_less}
use preemptive_and_non_preem.Policies.Prio.Keys.{lex_ℤ}
use preemptive_and_non_preem.Policies.Prio.Best.{IsBest}
use preemptive_and_non_preem.Policies.Prio.Shape.{Has, best_of-IsBest}
use preemptive_and_non_preem.Policies.Prio.Sound.{IsSound}
use preemptive_and_non_preem.Policies.Prio.Choice.{
  bump, HasRoom, sat_sub-zero, sat_sub-one, IsQueued, IsLeastBumped, choose-IsLeastBumped,
  pick-IsQueued, choose-IsQueued,
}
use preemptive_and_non_preem.Policies.Prio.Effective.{effective, IsInRange, effective-bump}

-- Whether `x` goes before `y` at `now`, by (effective priority, arrival, pid).
unfoldable pub goes_before : Prio → ℕ → ℕ → ℕ → Bool
unfolding effective
goes_before s now x y = lex_ℤ (effective s now x) (effective s now y) (earlier s.procs x y)

-- Nobody in the queue goes before the process that is chosen, if one is.
abbrev IsFirst : Prio → ℕ → Option ℕ → Type 0
IsFirst s now none = Unit {0}
IsFirst s now (some p) = (y : ℕ) → Has s.root y → goes_before s now y p ≡ false

less_shared :
    (a b : ℤ) (t : Bool) (m : ℕ) → lex_ℤ a b t ≡ false → lex_ℤ (a -ℤ pos m) (b -ℤ pos m) t ≡ false
unfolding ◌-ℤ◌
less_shared a b t m h = ground (arith, h)

minus_zero : (a : ℤ) → a -ℤ pos 0 ≡ a
unfolding ◌-ℤ◌
minus_zero a = ground arith

sat_sub-bump :
    (s : Prio) (limit : ℤ) (y : ℕ)
    → HasRoom s y
    → sat_sub (s.base y) (bump s limit y) ≡ s.base y -ℤ bump s limit y
sat_sub-bump s limit y room =
    if_holds (λ b. sat_sub (s.base y) b ≡ s.base y -ℤ b) (ltb_ℤ (s.r y) limit)
      (λ _. sat_sub-zero (s.base y) room.0 ∙ sym (minus_zero (s.base y)))
      (λ _. sat_sub-one (s.base y) room.0 room.1)

key_less-levels :
    (s : Prio) (bx by_ : ℤ) (x y : ℕ) (a b : ℤ)
    → sat_sub (s.base x) bx ≡ a
    → sat_sub (s.base y) by_ ≡ b
    → key_less s x bx y by_ ≡ false
    → lex_ℤ a b (earlier s.procs x y) ≡ false
unfolding key_less
key_less-levels s bx by_ x y a b h h' less = rw (h, h') at less

module _ {procs : List Process} (s : Prio) (now : ℕ) (sound : IsSound procs s)
    (past : (y : ℕ) → Has s.root y → s.ready_since y ≤ now)
    (fits : (y : ℕ) → Has s.root y → IsInRange s y) where
  room : (y : ℕ) → Has s.root y → HasRoom s y
  room y q = let h = fits y q in (h.0, h.1)

  aged-IsFirst :
      ltb 0 s.aging ≡ true
      → (o : Option ℕ) → IsQueued s o
      → IsLeastBumped s (limit_at s now) o
      → IsFirst s now o
  unfolding goes_before
  aged-IsFirst ages none h least = tt
  aged-IsFirst ages (some p) h least = λ y q.
      let limit = limit_at s now in
      rw
        (
          effective-bump s now y ages (sound.keyed y q) (past y q) (fits y q),
          effective-bump s now p ages (sound.keyed p h) (past p h) (fits p h),
        )
        (less_shared (s.base y -ℤ bump s limit y) (s.base p -ℤ bump s limit p) (earlier s.procs y p)
          (now / s.aging)
          (key_less-levels s (bump s limit y) (bump s limit p) y p _ _
            (sat_sub-bump s limit y (room y q)) (sat_sub-bump s limit p (room p h)) (least y q)))

  -- Without aging the effective priority is the base.
  effective-ageless : ltb 0 s.aging ≡ false → (y : ℕ) → Has s.root y → effective s now y ≡ s.base y
  unfolding effective
  effective-ageless ageless y q =
      let keys = sound.keyed y q in
      let (key_r, key_base) = rw ageless at keys in rw ageless (sym key_base)

  ageless-IsFirst :
      ltb 0 s.aging ≡ false → (o : Option ℕ) → IsBest s (Has s.root) o → IsFirst s now o
  unfolding goes_before
  ageless-IsFirst ageless none best = tt
  ageless-IsFirst ageless (some p) (h, least) = λ y q.
      rw (effective-ageless ageless y q, effective-ageless ageless p h)
        (key_less-levels s (pos 0) (pos 0) y p _ _ (sat_sub-zero (s.base y) (fits y q).0)
          (sat_sub-zero (s.base p) (fits p h).0) (least y q))

  pick-IsFirst : IsFirst s now (pick s now)
  unfolding pick
  pick-IsFirst =
      if_holds (IsFirst s now) (ltb 0 s.aging)
        (λ ages.
          aged-IsFirst ages _ (choose-IsQueued s (limit_at s now) sound.tree)
            (choose-IsLeastBumped s (limit_at s now) room sound.tree))
        (λ ageless. ageless-IsFirst ageless _ (best_of-IsBest s s.root sound.tree))

-- The process of a slice that `prio_next_slice` gives.
sliced :
    {D : Type 0} (v : View D) (s : Prio) (o : Option ℕ) (slice : Slice)
    → (elim o as (λ x. Option Slice × Prio) [
      | none ↦ (none, s)
      | some p ↦ (some (take_slice v s p).0, (take_slice v s p).1)
    ]).0
      ≡ some slice
    → o ≡ some slice.proc
unfolding take_slice
sliced v s none slice h = cc
sliced v s (some p) slice h = ap (Option.map (λ (x : Slice). x.proc)) h

-- For a sound state, where no queued process joined after the present time, and where no key of a
-- queued process has come to a limit of `int64_t`: the process of the slice that `prio_next_slice` gives
-- is in the queue, and no process of the queue goes before it by (effective priority, arrival, pid),
-- where the effective priority is the priority less one level for each full `aging` ticks waited.
pub prio_next_slice-IsFirst :
    {D : Type 0} {procs : List Process} (v : View D) (s : Prio) (slice : Slice)
    → IsSound procs s
    → ((y : ℕ) → Has s.root y → s.ready_since y ≤ v.now)
    → ((y : ℕ) → Has s.root y → IsInRange s y)
    → (prio_next_slice v s).0 ≡ some slice
    → Has s.root slice.proc × ((y : ℕ) → Has s.root y → goes_before s v.now y slice.proc ≡ false)
unfolding prio_next_slice
prio_next_slice-IsFirst v s slice sound past fits h =
    let e = sliced v s (pick s v.now) slice h in
    (
      subst (IsQueued s) e (pick-IsQueued s v.now sound.tree),
      subst (IsFirst s v.now) e (pick-IsFirst s v.now sound past fits),
    )
