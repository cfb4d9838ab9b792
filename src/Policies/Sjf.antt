-- ===== src/Policies/Sjf.antt =====
-- src/policies/sjf.c: the ready process with the least expected burst, then by (arrival, pid).
use preemptive_and_non_preem.Base.{
  ℕ, Bool, true, false, Option, none, some, List, [], if◌then◌else◌,
}
use preemptive_and_non_preem.Policy.{
  Float, View, PolicyParams, Slice, no_deadline, Policy, earlier, before, same, after,
  sched_cmp_expected_burst,
}
use preemptive_and_non_preem.Util.Heap.{heap_empty, heap_push, heap_pop}

-- The state is its heap; a process is in the ready set once at most, so it never outgrows its
-- capacity, the number of processes.
abbrev pub Sjf : Type 0
Sjf = List ℕ

module _ {D : Type 0} (f : Float D) where
  unfoldable pub sjf_less : View D → ℕ → ℕ → Bool
  sjf_less v a b = elim (sched_cmp_expected_burst f v a b) [
    | before ↦ true
    | same ↦ earlier v.procs a b
    | after ↦ false
  ]

  unfoldable pub sjf_create : View D → PolicyParams → Option Sjf
  sjf_create v params = some []

  unfoldable pub sjf_on_arrival : View D → Sjf → ℕ → Sjf
  sjf_on_arrival v s p = heap_push (sjf_less v) s p

  unfoldable pub sjf_next_slice : View D → Sjf → Option Slice × Sjf
  sjf_next_slice v s = if heap_empty s then (none, s) else elim (heap_pop (sjf_less v) s) [
    | none ↦ (none, s)
    | some (p, rest) ↦
        (some (record { proc = p; length = v.remaining p; deadline = no_deadline }), rest)
  ]

  unfoldable pub policy_sjf : Policy D Sjf
  policy_sjf = record {
    preemptive = false;
    preempt_on_ready = false;
    uses_quantum = false;
    uses_estimates = true;
    work_conserving = true;
    offline = false;
    create = sjf_create;
    on_arrival = sjf_on_arrival;
    on_ready = none;
    next_slice = sjf_next_slice;
    on_preempt = none;
    on_block = none;
    on_complete = none;
  }
