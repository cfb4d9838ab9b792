-- ===== src/Tests/Policies.antt =====
-- Stride and CFS at heaps of two processes, and the validation of a workload.
use preemptive_and_non_preem.Base.{
  ℕ, zero, suc, ◌<◌, ◌≤◌, ◌≡◌, ◌*◌, ◌/◌, refl, true, false, none, some, [], ◌∷◌, Perm, arith, ◌%◌,
  ◌^◌,
}
use preemptive_and_non_preem.Base.Int.{pos, IsI64, int64_max, ◌+ℤ◌, ◌-ℤ◌}
use preemptive_and_non_preem.Base.Sort.{qsort}
use preemptive_and_non_preem.Util.Checked.{ck_add_i64}
use preemptive_and_non_preem.Base.Weight.{weigh}
use preemptive_and_non_preem.Core.{ok}
use preemptive_and_non_preem.Policy.{View, Slice, after, no_deadline}
use preemptive_and_non_preem.Util.Heap.{at}
use preemptive_and_non_preem.Policies.Stride.{
  Stride, stride_less, stride_arrival, stride_ready, stride_preempt, stride_done, stride_next_slice,
}
use preemptive_and_non_preem.Policies.Heaps.Stride.{stride_hooks-IsOrdered, stride_next_slice-least}
use preemptive_and_non_preem.Policies.Cfs.{
  Cfs, vruntime_delta, whole_part, part_left, cfs_less, cfs_arrival, cfs_ready, cfs_preempt,
  cfs_leave, cfs_next_slice, weight,
}
use preemptive_and_non_preem.Policies.Heaps.Cfs.{cfs_hooks-IsOrdered, cfs_next_slice-least}
use preemptive_and_non_preem.Policies.Heaps.Stride
use preemptive_and_non_preem.Policies.Heaps.Cfs
use preemptive_and_non_preem.Workload.{
  workload_validate, workload_horizon, validate_one, process_validate, phase_sums, has_repeat,
}
use preemptive_and_non_preem.Workload.Phases.{workload_validate-horizon}
use preemptive_and_non_preem.Base.{Option, ◌⊎◌, ◌==◌, if◌then◌else◌}
use preemptive_and_non_preem.Policies.Mlfq.{Mlfq, maybe_boost, mlfq_next_slice}
use preemptive_and_non_preem.Policies.Mlfq.Rules.{Pick, mlfq_next_slice-Pick}
use preemptive_and_non_preem.Metrics.{metrics_makespan, metrics_makespan-latest}
use preemptive_and_non_preem.Policies.Fraction.{cmp_fraction, cmp_fraction-exact}
use preemptive_and_non_preem.Base.{◌^◌}
use preemptive_and_non_preem.Policies.Vruntime.{vruntime_delta-exact}
use preemptive_and_non_preem.Tests.Samples.{three}

abbrev view : View ℕ
view = record {
  procs = three.items;
  n = 3;
  cores = 1;
  cs_cost = 0;
  now = 1;
  remaining = λ p. 1;
  burst_len = λ p. 1;
  predicted = none;
}

abbrev strides : Stride
strides = record { quantum = 4; pass = λ p. p * 10; vtime = 0; ready = 0 ∷ 1 ∷ [] }

strides-IsOrdered : Stride.IsOrdered view strides
unfolding stride_less
strides-IsOrdered zero lo hi = absurd (omega arith)
strides-IsOrdered (suc zero) lo hi = refl
strides-IsOrdered (suc (suc c)) lo hi = absurd (omega arith)

stride_hooks_example :
    Stride.IsOrdered view (stride_arrival view strides 2)
    × Stride.IsOrdered view (stride_ready view strides 2)
    × Stride.IsOrdered view (stride_preempt view strides 2 3)
    × Stride.IsOrdered view (stride_done view strides 2 3)
unfolding weigh
stride_hooks_example = stride_hooks-IsOrdered view strides 2 3 refl strides-IsOrdered

stride_next_slice_example :
    (p : ℕ) × (t : Stride) × (stride_next_slice view strides
      ≡ (some (record { proc = p; length = 4; deadline = no_deadline }), t))
    × ((i : ℕ) → i < 2 → stride_less view strides (at (0 ∷ 1 ∷ []) i) p ≡ false)
    × Stride.IsOrdered view t
    × Perm (p ∷ t.ready) (0 ∷ 1 ∷ [])
    × (t.vtime ≡ strides.pass p)
    × (t.pass ≡ strides.pass)
stride_next_slice_example = stride_next_slice-least view strides strides-IsOrdered (omega arith)

abbrev shares : Cfs
shares = record {
  latency = 20;
  min_gran = 2;
  vruntime = λ p. p * 10;
  min_vruntime = 0;
  runnable_weight = 2048;
  ready = 0 ∷ 1 ∷ [];
}

shares-IsOrdered : Cfs.IsOrdered view shares
unfolding cfs_less
shares-IsOrdered zero lo hi = absurd (omega arith)
shares-IsOrdered (suc zero) lo hi = refl
shares-IsOrdered (suc (suc c)) lo hi = absurd (omega arith)

cfs_hooks_example :
    Cfs.IsOrdered view (cfs_arrival view shares 2)
    × Cfs.IsOrdered view (cfs_ready view shares 2)
    × Cfs.IsOrdered view (cfs_preempt view shares 2 3)
    × Cfs.IsOrdered view (cfs_leave view shares 2 3)
unfolding weigh
cfs_hooks_example = cfs_hooks-IsOrdered view shares 2 3 refl shares-IsOrdered

cfs_next_slice_example :
    (slice : Slice) × (t : Cfs) × (cfs_next_slice view shares ≡ (some slice, t))
    × ((i : ℕ) → i < 2 → cfs_less view shares (at (0 ∷ 1 ∷ []) i) slice.proc ≡ false)
    × (2 ≤ slice.length)
    × ((20 * weight view slice.proc) / 2048 ≤ slice.length)
    × Cfs.IsOrdered view t
    × Perm (slice.proc ∷ t.ready) (0 ∷ 1 ∷ [])
    × (t.vruntime ≡ shares.vruntime)
    × (0 ≤ t.min_vruntime)
cfs_next_slice_example = cfs_next_slice-least view shares shares-IsOrdered (omega arith)

three-accepted : workload_validate (λ k. true) three ≡ ok
unfolding workload_validate validate_one process_validate phase_sums has_repeat ck_add_i64 ◌-ℤ◌ ◌+ℤ◌
    qsort
three-accepted = refl

workload_validate_example : (h : ℕ) × (workload_horizon three ≡ pos h) × IsI64 (pos h)
workload_validate_example = workload_validate-horizon (λ k. true) three three-accepted

-- One job in the second of three levels.
abbrev feedback : Mlfq
feedback = record {
  levels = 3;
  quanta = λ l. 4;
  allot = λ l. 8;
  boost = 100;
  epoch = 0;
  head = λ l. if l == 1 then some 2 else none;
  tail = λ l. if l == 1 then some 2 else none;
  next = λ p. none;
  prev = λ p. none;
  level = λ p. 1;
  used = λ p. 3;
  slice_left = λ p. 0;
  seen_epoch = λ p. 0;
}

mlfq_next_slice_example :
    (((k : ℕ) → k < (maybe_boost view feedback).levels → (maybe_boost view feedback).head k ≡ none)
      × (mlfq_next_slice view feedback ≡ (none, maybe_boost view feedback)))
    ⊎ ((l : ℕ) × (slice : Slice) × (r : Mlfq) × (mlfq_next_slice view feedback ≡ (some slice, r))
        × Pick (maybe_boost view feedback) l slice r)
mlfq_next_slice_example = mlfq_next_slice-Pick view feedback

abbrev two_done : ℕ → Option ℕ
two_done p = if p == 0 then some 9 else some 4

metrics_makespan_example : 4 ≤ metrics_makespan two_done 2
metrics_makespan_example = metrics_makespan-latest two_done 2 1 4 (omega arith) refl

-- 7 / 5 and 11 / 8, by the loop.
cmp_fraction_example : cmp_fraction 6 true 7 5 11 8 ≡ some after
cmp_fraction_example = cmp_fraction-exact 6 true 7 5 11 8 (omega arith) (omega arith) (omega arith)

vruntime_delta_example :
    (vruntime_delta 1_000_000_000_000 335 ≡ (1_000_000_000_000 * 2 ^ 26) / 335)
    × (vruntime_delta 1_000_000_000_000 335 ≤ int64_max)
    × (whole_part 1_000_000_000_000 335 ≡ (1_000_000_000_000 / 335) * 2 ^ 26)
    × (whole_part 1_000_000_000_000 335 ≤ int64_max)
    × (part_left 1_000_000_000_000 335 ≡ (1_000_000_000_000 % 335) * 2 ^ 26)
    × (part_left 1_000_000_000_000 335 ≤ int64_max)
vruntime_delta_example =
    vruntime_delta-exact 1_000_000_000_000 335 (omega arith) (omega arith) (omega arith)
