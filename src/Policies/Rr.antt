-- ===== src/Policies/Rr.antt =====
-- src/policies/rr.c: round robin with a fixed quantum.
use preemptive_and_non_preem.Base.{ℕ, true, false, Option, none, some, if◌then◌else◌}
use preemptive_and_non_preem.Base.Int.{pos_part}
use preemptive_and_non_preem.Policy.{View, PolicyParams, Slice, no_deadline, Policy}
use preemptive_and_non_preem.Policies.Fcfs.{enqueue}
use preemptive_and_non_preem.Util.Ring.{Ring, queue_init, queue_empty, queue_pop}

pub record Rr : Type 0 where
  pub ready : Ring
  pub quantum : ℕ

module _ {D : Type 0} where
  unfoldable pub rr_create : View D → PolicyParams → Option Rr
  rr_create v params = some (record { ready = queue_init v.n; quantum = pos_part params.quantum })

  unfoldable pub rr_enqueue : View D → Rr → ℕ → Rr
  rr_enqueue v s p = record s { ready = enqueue s.ready p }

  unfoldable pub rr_requeue : View D → Rr → ℕ → ℕ → Rr
  unfolding rr_enqueue
  rr_requeue v s p ran = rr_enqueue v s p

  unfoldable pub rr_next_slice : View D → Rr → Option Slice × Rr
  rr_next_slice v s = if queue_empty s.ready then (none, s) else elim (queue_pop s.ready) [
    | none ↦ (none, s)
    | some (p, rest) ↦ (
      some (record { proc = p; length = s.quantum; deadline = no_deadline }),
      record s { ready = rest },
    )
  ]

unfoldable pub policy_rr : (D : Type 0) → Policy D Rr
policy_rr D = record {
  preemptive = true;
  preempt_on_ready = false;
  uses_quantum = true;
  uses_estimates = false;
  work_conserving = true;
  offline = false;
  create = rr_create;
  on_arrival = rr_enqueue;
  on_ready = none;
  next_slice = rr_next_slice;
  on_preempt = some rr_requeue;
  on_block = none;
  on_complete = none;
}
