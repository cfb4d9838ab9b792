-- ===== src/Tests/Lengths.antt =====
-- SJF and SRTF at a concrete queue: two processes of the same length and arrival, and a longer one.
use preemptive_and_non_preem.Base.{
  ℕ, zero, suc, ◌≡◌, refl, none, some, List, [], ◌∷◌, arith, get_or, if◌then◌else◌, ◌==◌,
}
use preemptive_and_non_preem.Policy.{View, no_deadline, sched_cmp_expected_remaining}
use preemptive_and_non_preem.Util.Heap.{heap_empty, heap_pop}
use preemptive_and_non_preem.Util.Heap.Order.{IsHeap}
use preemptive_and_non_preem.Policies.Srtf.{srtf_less, srtf_next_slice}
use preemptive_and_non_preem.Policies.Heaps.Shortest.{
  srtf, known_length, less_of, next_slice_of, IsShortestFirst, next_slice_of-shortest,
}
use preemptive_and_non_preem.Tests.Samples.{three, ticks}

-- At time 6, when the first process has run for 2 ticks.
abbrev view : View ℕ
view = record {
  procs = three.items;
  n = 3;
  cores = 1;
  cs_cost = 0;
  now = 6;
  remaining = λ p. if p == 1 then 2 else 3;
  burst_len = λ p. get_or (5 ∷ 2 ∷ 3 ∷ []) p 0;
  predicted = none;
}

abbrev queue : List ℕ
queue = 1 ∷ 0 ∷ 2 ∷ []

queue-IsHeap : IsHeap (less_of ticks srtf view) queue
unfolding srtf_less sched_cmp_expected_remaining
queue-IsHeap zero lo hi = absurd (omega arith)
queue-IsHeap (suc zero) lo hi = refl
queue-IsHeap (suc (suc zero)) lo hi = refl
queue-IsHeap (suc (suc (suc c))) lo hi = absurd (omega arith)

picked :
    srtf_next_slice ticks view queue
    ≡ (some (record { proc = 1; length = 2; deadline = no_deadline }), 0 ∷ 2 ∷ [])
unfolding srtf_next_slice heap_empty heap_pop srtf_less sched_cmp_expected_remaining
picked = refl

shortest_example :
    IsShortestFirst view
      (known_length srtf view)
      (less_of ticks srtf view)
      queue
      (next_slice_of ticks srtf view queue)
shortest_example = next_slice_of-shortest ticks view refl srtf queue queue-IsHeap (omega arith)
