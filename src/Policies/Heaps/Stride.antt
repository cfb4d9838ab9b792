-- ===== src/Policies/Heaps/Stride.antt =====
-- src/policies/stride.c: the heap stays in order of (pass, pid), and a slice goes to its least process.
use preemptive_and_non_preem.Base.{ℕ, ◌<◌, ◌≡◌, refl, false, some, ◌∷◌, Perm, arith, length, update}
use preemptive_and_non_preem.Base.Weight.{count}
use preemptive_and_non_preem.Policy.{View, pid_of, no_deadline}
use preemptive_and_non_preem.Util.Heap.{at, heap_empty}
use preemptive_and_non_preem.Util.Heap.Order.{IsHeap}
use preemptive_and_non_preem.Util.Heap.Push.{heap_push_correct}
use preemptive_and_non_preem.Util.Heap.Pop.{heap_pop_correct}
use preemptive_and_non_preem.Policies.Stride.{
  Stride, stride_less, push_ready, stride_arrival, stride_ready, charge, stride_preempt,
  stride_done, stride_next_slice,
}
use preemptive_and_non_preem.Policies.Heaps.{lex-IsOrder, rekeyed-IsHeap}

-- The heap is in the order of (pass, pid).
abbrev pub IsOrdered : {D : Type 0} → View D → Stride → Type 0
IsOrdered v t = IsHeap (stride_less v t) t.ready

module _ {D : Type 0} (v : View D) (s : Stride) where
  -- A new pass for a process that is not ready, which is then pushed.
  push-IsOrdered :
      (p pass : ℕ)
      → count p s.ready ≡ 0
      → IsOrdered v s
      → IsOrdered v (push_ready v (record s { pass = update s.pass p pass }) p)
  unfolding stride_less push_ready
  push-IsOrdered p pass fresh h =
      let order = lex-IsOrder (update s.pass p pass) (pid_of v.procs) in
      let rekeyed =
        rekeyed-IsHeap s.pass (update s.pass p pass) (pid_of v.procs) p s.ready fresh
          (λ x e. rw e refl) h in
      (heap_push_correct _ s.ready p order rekeyed).0

  -- For a process that is not in the heap, an arrival, a wake-up and a preemption leave the heap in the
  -- order of (pass, pid) under the passes that they set.
  pub stride_hooks-IsOrdered :
      (p ran : ℕ)
      → count p s.ready ≡ 0
      → IsOrdered v s
      → IsOrdered v (stride_arrival v s p)
        × IsOrdered v (stride_ready v s p)
        × IsOrdered v (stride_preempt v s p ran)
        × IsOrdered v (stride_done v s p ran)
  unfolding stride_arrival stride_ready stride_preempt stride_done charge stride_less
  stride_hooks-IsOrdered p ran fresh h = (
    push-IsOrdered p _ fresh h,
    push-IsOrdered p _ fresh h,
    push-IsOrdered p _ fresh h,
    rekeyed-IsHeap s.pass (stride_done v s p ran).pass (pid_of v.procs) p s.ready fresh
        (λ x e. rw e refl) h,
  )

  -- On a non-empty heap in order, `stride_next_slice` gives a slice of one quantum to a process that none
  -- in the heap goes before by (pass, pid), sets the global pass to its pass, and leaves a heap in order of
  -- the others, with the passes as they were.
  pub stride_next_slice-least :
      IsOrdered v s
      → 0 < length s.ready
      → (p : ℕ) × (t : Stride) × (stride_next_slice v s
          ≡ (some (record { proc = p; length = s.quantum; deadline = no_deadline }), t))
        × ((i : ℕ) → i < length s.ready → stride_less v s (at s.ready i) p ≡ false)
        × IsOrdered v t
        × Perm (p ∷ t.ready) s.ready
        × (t.vtime ≡ s.pass p)
        × (t.pass ≡ s.pass)
  unfolding stride_next_slice stride_less heap_empty
  stride_next_slice-least h left =
      let (r, popped, right) =
        (heap_pop_correct (stride_less v s) s.ready (lex-IsOrder s.pass (pid_of v.procs)) h).0
          left in
      let full : heap_empty s.ready ≡ false = ground (arith, left) in
      (
        r.0,
        record s { vtime = s.pass r.0; ready = r.1 },
        rw (full, popped) refl,
        right.least,
        right.heap,
        right.perm,
        refl,
        refl,
      )
