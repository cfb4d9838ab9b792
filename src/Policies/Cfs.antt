-- ===== src/Policies/Cfs.antt =====
-- src/policies/cfs.c: the CFS model, the ready process with the least (vruntime, pid).
use preemptive_and_non_preem.Base.{
  ℕ, ◌+◌, ◌-◌, ◌*◌, ◌/◌, ◌%◌, ◌^◌, Bool, true, false, Option, none, some, List, [], ◌∷◌, ◌||◌, ltb,
  ◌==◌, if◌then◌else◌, get_or, update,
}
use preemptive_and_non_preem.Base.Int.{pos, pos_part, ◌+ℤ◌}
use preemptive_and_non_preem.Core.{Process}
use preemptive_and_non_preem.Policy.{
  View, PolicyParams, Slice, no_deadline, Policy, proc_at, pid_of,
}
use preemptive_and_non_preem.Util.Heap.{heap_empty, heap_push, heap_pop, at}

abbrev pub cfs_max_cpu : ℕ
cfs_max_cpu = 1_000_000_000_000

abbrev pub nice_to_weight : List ℕ
nice_to_weight =
    88761 ∷ 71755 ∷ 56483 ∷ 46273 ∷ 36291 ∷ 29154 ∷ 23254 ∷ 18705 ∷ 14949 ∷ 11916 ∷ 9548 ∷ 7620
    ∷ 6100 ∷ 4904 ∷ 3906 ∷ 3121 ∷ 2501 ∷ 1991 ∷ 1586 ∷ 1277 ∷ 1024 ∷ 820 ∷ 655 ∷ 526 ∷ 423 ∷ 335
    ∷ 272 ∷ 215 ∷ 172 ∷ 137 ∷ 110 ∷ 87 ∷ 70 ∷ 56 ∷ 45 ∷ 36 ∷ 29 ∷ 23 ∷ 18 ∷ 15 ∷ []

pub record Cfs : Type 0 where
  pub latency : ℕ
  pub min_gran : ℕ
  pub vruntime : ℕ → ℕ
  pub min_vruntime : ℕ
  pub runnable_weight : ℕ
  pub ready : List ℕ

pub total_burst : List Process → ℕ
total_burst [] = 0
total_burst (p ∷ ps) = pos_part p.burst + total_burst ps

-- A 64-bit word. As an `int64_t`, one above `INT64_MAX` would be negative.
abbrev pub word : ℕ → ℕ
word x = x % 2 ^ 64

-- `(ran / w) << 26`, and the dividend of the other term.
unfoldable pub whole_part : ℕ → ℕ → ℕ
whole_part ran w = word ((ran / w) * 2 ^ 26)

unfoldable pub part_left : ℕ → ℕ → ℕ
part_left ran w = word ((ran % w) * 2 ^ 26)

unfoldable pub vruntime_delta : ℕ → ℕ → ℕ
unfolding whole_part part_left
vruntime_delta ran w = word (whole_part ran w + part_left ran w / w)

unfoldable pub update_min_vruntime : Cfs → Cfs
update_min_vruntime s =
    let left = s.vruntime (at s.ready 0) in
    if heap_empty s.ready
    then s
    else if ltb s.min_vruntime left
    then record s { min_vruntime = left }
    else s

module _ {D : Type 0} where
  unfoldable pub weight : View D → ℕ → ℕ
  unfolding ◌+ℤ◌
  weight v p = get_or nice_to_weight (pos_part ((proc_at v.procs p).nice +ℤ pos 20)) 0

  unfoldable pub cfs_less : View D → Cfs → ℕ → ℕ → Bool
  cfs_less v s a b =
      if s.vruntime a == s.vruntime b
      then ltb (pid_of v.procs a) (pid_of v.procs b)
      else ltb (s.vruntime a) (s.vruntime b)

  unfoldable pub cfs_create : View D → PolicyParams → Option Cfs
  unfolding total_burst
  cfs_create v params =
      if ltb cfs_max_cpu (total_burst v.procs) || ltb 1_000_000_000 params.cfs_latency
      then none
      else some (record {
        latency = params.cfs_latency;
        min_gran = params.cfs_min_gran;
        vruntime = λ p. 0;
        min_vruntime = 0;
        runnable_weight = 0;
        ready = [];
      })

  unfoldable pub enqueue : View D → Cfs → ℕ → Cfs
  unfolding update_min_vruntime
  enqueue v s p = update_min_vruntime (record s { ready = heap_push (cfs_less v s) s.ready p })

  unfoldable pub cfs_arrival : View D → Cfs → ℕ → Cfs
  unfolding enqueue
  cfs_arrival v s p =
      enqueue v
        (record s {
          vruntime = update s.vruntime p s.min_vruntime;
          runnable_weight = s.runnable_weight + weight v p;
        })
        p

  -- A floor below 0 is 0 here: no vruntime is negative, so the test fails at both.
  unfoldable pub cfs_ready : View D → Cfs → ℕ → Cfs
  unfolding enqueue
  cfs_ready v s p =
      let floor = s.min_vruntime - (s.latency * 2 ^ 16) / 2 in
      enqueue v
        (record s {
          vruntime = update s.vruntime p (if ltb (s.vruntime p) floor then floor else s.vruntime p);
          runnable_weight = s.runnable_weight + weight v p;
        })
        p

  unfoldable pub run_for : View D → Cfs → ℕ → ℕ → Cfs
  run_for v s p ran = record s {
    vruntime = update s.vruntime p (s.vruntime p + vruntime_delta ran (weight v p));
  }

  unfoldable pub cfs_preempt : View D → Cfs → ℕ → ℕ → Cfs
  unfolding enqueue run_for
  cfs_preempt v s p ran = enqueue v (run_for v s p ran) p

  unfoldable pub cfs_leave : View D → Cfs → ℕ → ℕ → Cfs
  unfolding run_for
  cfs_leave v s p ran =
      let t = run_for v s p ran in record t { runnable_weight = t.runnable_weight - weight v p }

  unfoldable pub cfs_next_slice : View D → Cfs → Option Slice × Cfs
  unfolding update_min_vruntime
  cfs_next_slice v s =
      if heap_empty s.ready then (none, s) else elim (heap_pop (cfs_less v s) s.ready) [
        | none ↦ (none, s)
        | some (p, rest) ↦
            let t = update_min_vruntime (record s { ready = rest }) in
            let slice = (t.latency * weight v p) / t.runnable_weight in
            (
              some (record {
                proc = p;
                length = if ltb t.min_gran slice then slice else t.min_gran;
                deadline = no_deadline;
              }),
              t,
            )
      ]

unfoldable pub policy_cfs : (D : Type 0) → Policy D Cfs
policy_cfs D = record {
  preemptive = true;
  preempt_on_ready = false;
  uses_quantum = false;
  uses_estimates = false;
  work_conserving = true;
  offline = false;
  create = cfs_create;
  on_arrival = cfs_arrival;
  on_ready = some cfs_ready;
  next_slice = cfs_next_slice;
  on_preempt = some cfs_preempt;
  on_block = some cfs_leave;
  on_complete = some cfs_leave;
}
