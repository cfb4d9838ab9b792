-- ===== src/Policies/Srtf.antt =====
-- src/policies/srtf.c: the ready process with the least expected remaining, then by (arrival, pid).
use preemptive_and_non_preem.Base.{
  ℕ, Bool, true, false, Option, none, some, List, [], if◌then◌else◌,
}
use preemptive_and_non_preem.Policy.{
  Float, View, PolicyParams, Slice, no_deadline, Policy, earlier, before, same, after,
  sched_cmp_expected_remaining,
}
use preemptive_and_non_preem.Util.Heap.{heap_empty, heap_push, heap_pop}

-- The state is its heap; a process is in the ready set once at most, so it never outgrows its
-- capacity, the number of processes.
abbrev pub Srtf : Type 0
Srtf = List ℕ

module _ {D : Type 0} (f : Float D) where
  unfoldable pub srtf_less : View D → ℕ → ℕ → Bool
  srtf_less v a b = elim (sched_cmp_expected_remaining f v a b) [
    | before ↦ true
    | same ↦ earlier v.procs a b
    | after ↦ false
  ]

  unfoldable pub srtf_create : View D → PolicyParams → Option Srtf
  srtf_create v params = some []

  unfoldable pub srtf_push : View D → Srtf → ℕ → Srtf
  srtf_push v s p = heap_push (srtf_less v) s p

  unfoldable pub srtf_requeue : View D → Srtf → ℕ → ℕ → Srtf
  unfolding srtf_push
  srtf_requeue v s p ran = srtf_push v s p

  unfoldable pub srtf_next_slice : View D → Srtf → Option Slice × Srtf
  srtf_next_slice v s = if heap_empty s then (none, s) else elim (heap_pop (srtf_less v) s) [
    | none ↦ (none, s)
    | some (p, rest) ↦
        (some (record { proc = p; length = v.remaining p; deadline = no_deadline }), rest)
  ]

  unfoldable pub policy_srtf : Policy D Srtf
  policy_srtf = record {
    preemptive = true;
    preempt_on_ready = true;
    uses_quantum = false;
    uses_estimates = true;
    work_conserving = true;
    offline = false;
    create = srtf_create;
    on_arrival = srtf_push;
    on_ready = none;
    next_slice = srtf_next_slice;
    on_preempt = some srtf_requeue;
    on_block = none;
    on_complete = none;
  }
