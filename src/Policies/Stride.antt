-- ===== src/Policies/Stride.antt =====
-- src/policies/stride.c: stride scheduling, the ready process with the least (pass, pid).
use preemptive_and_non_preem.Base.{
  ℕ, ◌+◌, ◌-◌, ◌*◌, ◌/◌, ◌^◌, Bool, true, false, Option, none, some, List, [], ◌∷◌, ltb, ◌==◌,
  if◌then◌else◌, update,
}
use preemptive_and_non_preem.Base.Int.{pos_part, int64_max}
use preemptive_and_non_preem.Core.{Process}
use preemptive_and_non_preem.Policy.{
  View, PolicyParams, Slice, no_deadline, Policy, proc_at, pid_of,
}
use preemptive_and_non_preem.Util.Heap.{heap_empty, heap_push, heap_pop}

abbrev pub stride1 : ℕ
stride1 = 2 ^ 20

pub record Stride : Type 0 where
  pub quantum : ℕ
  pub pass : ℕ → ℕ
  pub vtime : ℕ
  pub ready : List ℕ

-- The total CPU time, or `none` where it would pass `INT64_MAX / STRIDE1`.
pub total_below : ℕ → ℕ → List Process → Option ℕ
total_below limit total [] = some total
total_below limit total (p ∷ ps) =
    let rest = total_below limit (total + pos_part p.burst) ps in
    if ltb (limit - total) (pos_part p.burst) then none else rest

module _ {D : Type 0} where
  unfoldable pub stride_of : View D → ℕ → ℕ
  stride_of v p = stride1 / pos_part (proc_at v.procs p).tickets

  unfoldable pub stride_less : View D → Stride → ℕ → ℕ → Bool
  stride_less v s a b =
      if s.pass a == s.pass b
      then ltb (pid_of v.procs a) (pid_of v.procs b)
      else ltb (s.pass a) (s.pass b)

  unfoldable pub stride_create : View D → PolicyParams → Option Stride
  unfolding total_below
  stride_create v params = elim (total_below (int64_max / stride1) 0 v.procs) [
    | none ↦ none
    | some total ↦
        some (record { quantum = pos_part params.quantum; pass = λ p. 0; vtime = 0; ready = [] })
  ]

  -- The heap's context is the state, with the passes as they are at the call.
  unfoldable pub push_ready : View D → Stride → ℕ → Stride
  push_ready v s p = record s { ready = heap_push (stride_less v s) s.ready p }

  unfoldable pub stride_arrival : View D → Stride → ℕ → Stride
  unfolding push_ready
  stride_arrival v s p = push_ready v (record s { pass = update s.pass p s.vtime }) p

  unfoldable pub stride_ready : View D → Stride → ℕ → Stride
  unfolding push_ready
  stride_ready v s p =
      push_ready v
        (record s { pass = update s.pass p (if ltb (s.pass p) s.vtime then s.vtime else s.pass p) })
        p

  unfoldable pub charge : View D → Stride → ℕ → ℕ → Stride
  charge v s p ran = record s { pass = update s.pass p (s.pass p + stride_of v p * ran) }

  unfoldable pub stride_preempt : View D → Stride → ℕ → ℕ → Stride
  unfolding charge push_ready
  stride_preempt v s p ran = push_ready v (charge v s p ran) p

  unfoldable pub stride_done : View D → Stride → ℕ → ℕ → Stride
  unfolding charge
  stride_done v s p ran = charge v s p ran

  unfoldable pub stride_next_slice : View D → Stride → Option Slice × Stride
  stride_next_slice v s =
      if heap_empty s.ready then (none, s) else elim (heap_pop (stride_less v s) s.ready) [
        | none ↦ (none, s)
        | some (p, rest) ↦ (
          some (record { proc = p; length = s.quantum; deadline = no_deadline }),
          record s { vtime = s.pass p; ready = rest },
        )
      ]

unfoldable pub policy_stride : (D : Type 0) → Policy D Stride
policy_stride D = record {
  preemptive = true;
  preempt_on_ready = false;
  uses_quantum = true;
  uses_estimates = false;
  work_conserving = true;
  offline = false;
  create = stride_create;
  on_arrival = stride_arrival;
  on_ready = some stride_ready;
  next_slice = stride_next_slice;
  on_preempt = some stride_preempt;
  on_block = some stride_done;
  on_complete = some stride_done;
}
