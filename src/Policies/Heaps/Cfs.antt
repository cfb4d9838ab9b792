-- ===== src/Policies/Heaps/Cfs.antt =====
-- src/policies/cfs.c: the heap stays in order of (vruntime, pid), a slice goes to its least process, and
-- `min_vruntime` never goes back.
use mathlib.Core.Path.{ap₂, subst}
use preemptive_and_non_preem.Base.{
  ℕ, ◌*◌, ◌/◌, ◌<◌, ◌≤◌, ◌≡◌, refl, false, some, ◌∷◌, Perm, arith, length, ltb, if◌then◌else◌,
  update,
}
use preemptive_and_non_preem.Base.Weight.{count}
use preemptive_and_non_preem.Policy.{View, Slice, pid_of, no_deadline}
use preemptive_and_non_preem.Util.Heap.{at, heap_empty}
use preemptive_and_non_preem.Util.Heap.Order.{IsHeap}
use preemptive_and_non_preem.Util.Heap.Push.{heap_push_correct}
use preemptive_and_non_preem.Util.Heap.Pop.{heap_pop_correct}
use preemptive_and_non_preem.Policies.Cfs.{
  Cfs, cfs_less, weight, enqueue, cfs_arrival, cfs_ready, run_for, cfs_preempt, cfs_leave,
  cfs_next_slice, update_min_vruntime,
}
use preemptive_and_non_preem.Policies.Heaps.{lex-IsOrder, rekeyed-IsHeap}

-- What `update_min_vruntime` leaves alone, and that it only raises the minimum.
pub record Raised (s t : Cfs) : Type 0 where
  pub same_vruntime : t.vruntime ≡ s.vruntime
  pub same_ready : t.ready ≡ s.ready
  pub same_latency : t.latency ≡ s.latency
  pub same_gran : t.min_gran ≡ s.min_gran
  pub same_weight : t.runnable_weight ≡ s.runnable_weight
  pub raised : s.min_vruntime ≤ t.min_vruntime

Raised-min : (s : Cfs) → Raised s (update_min_vruntime s)
unfolding update_min_vruntime heap_empty
Raised-min s = record {
  same_vruntime = ground arith;
  same_ready = ground arith;
  same_latency = ground arith;
  same_gran = ground arith;
  same_weight = ground arith;
  raised = ground arith;
}

-- The heap is in the order of (vruntime, pid).
abbrev pub IsOrdered : {D : Type 0} → View D → Cfs → Type 0
IsOrdered v t = IsHeap (cfs_less v t) t.ready

module _ {D : Type 0} (v : View D) (s : Cfs) where
  IsOrdered-min : (t : Cfs) → IsOrdered v t → IsOrdered v (update_min_vruntime t)
  unfolding cfs_less
  IsOrdered-min t h = let r = Raised-min t in rw (r.same_vruntime, r.same_ready) h

  -- A new vruntime for a process that is not ready, which is then pushed.
  enqueue-IsOrdered :
      (p runtime total : ℕ)
      → count p s.ready ≡ 0
      → IsOrdered v s
      → IsOrdered v (
          enqueue v
            (record s { vruntime = update s.vruntime p runtime; runnable_weight = total })
            p)
  unfolding cfs_less enqueue
  enqueue-IsOrdered p runtime total fresh h =
      let order = lex-IsOrder (update s.vruntime p runtime) (pid_of v.procs) in
      let rekeyed =
        rekeyed-IsHeap s.vruntime (update s.vruntime p runtime) (pid_of v.procs) p s.ready fresh
          (λ x e. rw e refl) h in
      IsOrdered-min _ (heap_push_correct _ s.ready p order rekeyed).0

  -- For a process that is not in the heap, an arrival, a wake-up, a preemption, a block and a completion
  -- leave the heap in the order of (vruntime, pid) under the vruntimes that they set.
  pub cfs_hooks-IsOrdered :
      (p ran : ℕ)
      → count p s.ready ≡ 0
      → IsOrdered v s
      → IsOrdered v (cfs_arrival v s p)
        × IsOrdered v (cfs_ready v s p)
        × IsOrdered v (cfs_preempt v s p ran)
        × IsOrdered v (cfs_leave v s p ran)
  unfolding cfs_arrival cfs_ready cfs_preempt cfs_leave run_for cfs_less
  cfs_hooks-IsOrdered p ran fresh h = (
    enqueue-IsOrdered p _ _ fresh h,
    enqueue-IsOrdered p _ _ fresh h,
    enqueue-IsOrdered p _ _ fresh h,
    rekeyed-IsHeap s.vruntime (cfs_leave v s p ran).vruntime (pid_of v.procs) p s.ready fresh
        (λ x e. rw e refl) h,
  )

  -- On a non-empty heap in order, `cfs_next_slice` gives a slice to a process that none in the heap goes
  -- before by (vruntime, pid), of at least the minimal granularity and at least its share of the latency by
  -- weight, and leaves a heap in order of the others. No vruntime changes, and `min_vruntime` does not fall.
  pub cfs_next_slice-least :
      IsOrdered v s
      → 0 < length s.ready
      → (slice : Slice) × (t : Cfs) × (cfs_next_slice v s ≡ (some slice, t))
        × ((i : ℕ) → i < length s.ready → cfs_less v s (at s.ready i) slice.proc ≡ false)
        × (s.min_gran ≤ slice.length)
        × ((s.latency * weight v slice.proc) / s.runnable_weight ≤ slice.length)
        × IsOrdered v t
        × Perm (slice.proc ∷ t.ready) s.ready
        × (t.vruntime ≡ s.vruntime)
        × (s.min_vruntime ≤ t.min_vruntime)
  unfolding cfs_next_slice cfs_less heap_empty
  cfs_next_slice-least h left =
      let (r, popped, right) =
        (heap_pop_correct (cfs_less v s) s.ready (lex-IsOrder s.vruntime (pid_of v.procs)) h).0
          left in
      let full : heap_empty s.ready ≡ false = ground (arith, left) in
      let rest : Cfs = record s { ready = r.1 } in
      let up = Raised-min rest in
      let t = update_min_vruntime rest in
      let share = (t.latency * weight v r.0) / t.runnable_weight in
      let len = if ltb t.min_gran share then share else t.min_gran in
      let gran : s.min_gran ≤ len = ground (arith, up.same_gran) in
      let same : share ≡ (s.latency * weight v r.0) / s.runnable_weight =
        ap₂ (λ (a b : ℕ). (a * weight v r.0) / b) up.same_latency up.same_weight in
      let fair : share ≤ len = ground arith in
      (
        record { proc = r.0; length = len; deadline = no_deadline },
        t,
        rw (full, popped) refl,
        right.least,
        gran,
        subst (λ (x : ℕ). x ≤ len) same fair,
        IsOrdered-min rest right.heap,
        rw up.same_ready right.perm,
        up.same_vruntime,
        up.raised,
      )
