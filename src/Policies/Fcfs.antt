-- ===== src/Policies/Fcfs.antt =====
-- src/policies/fcfs.c: first come, first served.
use preemptive_and_non_preem.Base.{ℕ, true, false, Option, none, some, if◌then◌else◌}
use preemptive_and_non_preem.Policy.{View, PolicyParams, Slice, no_deadline, Policy}
use preemptive_and_non_preem.Util.Ring.{Ring, queue_init, queue_empty, queue_push, queue_pop}

-- The state is its queue.
abbrev pub Fcfs : Type 0
Fcfs = Ring

-- A queue that fails its assertion is left as it is; the contract shows that none does.
abbrev pub enqueue : Ring → ℕ → Ring
enqueue q p = elim (queue_push q p) [ none ↦ q | some r ↦ r ]

module _ {D : Type 0} where
  unfoldable pub fcfs_create : View D → PolicyParams → Option Fcfs
  fcfs_create v params = some (queue_init v.n)

  unfoldable pub fcfs_on_arrival : View D → Fcfs → ℕ → Fcfs
  fcfs_on_arrival v s p = enqueue s p

  unfoldable pub fcfs_next_slice : View D → Fcfs → Option Slice × Fcfs
  fcfs_next_slice v s = if queue_empty s then (none, s) else elim (queue_pop s) [
    | none ↦ (none, s)
    | some (p, rest) ↦
        (some (record { proc = p; length = v.remaining p; deadline = no_deadline }), rest)
  ]

unfoldable pub policy_fcfs : (D : Type 0) → Policy D Fcfs
policy_fcfs D = record {
  preemptive = false;
  preempt_on_ready = false;
  uses_quantum = false;
  uses_estimates = false;
  work_conserving = true;
  offline = false;
  create = fcfs_create;
  on_arrival = fcfs_on_arrival;
  on_ready = none;
  next_slice = fcfs_next_slice;
  on_preempt = none;
  on_block = none;
  on_complete = none;
}
