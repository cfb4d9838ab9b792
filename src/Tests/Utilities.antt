-- ===== src/Tests/Utilities.antt =====
-- The heap and the ring at concrete inputs.
use preemptive_and_non_preem.Base.{
  ℕ, zero, suc, ◌≡◌, ◌<◌, refl, none, some, List, [], ◌∷◌, arith, ltb,
}
use preemptive_and_non_preem.Util.Heap.{heap_pop}
use preemptive_and_non_preem.Util.Heap.Order.{IsOrder, IsHeap}
use preemptive_and_non_preem.Util.Heap.Pop.{Popped, heap_pop_correct}
use preemptive_and_non_preem.Base.{◌≤◌, ◌-◌, ◌++◌, ◌↔◌, Perm}
use preemptive_and_non_preem.Base.Int.{pos, negsuc, ◌+ℤ◌, ◌-ℤ◌, int64_max, IsI64}
use preemptive_and_non_preem.Util.Heap.{heap_push}
use preemptive_and_non_preem.Util.Heap.Push.{heap_push_correct}
use preemptive_and_non_preem.Util.Checked.{
  ck_add_i64, ck_sub_i64, ck_add_i64-exact, ck_sub_i64-exact,
}
use preemptive_and_non_preem.Util.Ring.{Ring, queue_push, queue_pop}
use preemptive_and_non_preem.Util.Ring.Refine.{
  IsValid, contents, queue_push_correct, queue_pop_correct,
}

ltb-IsOrder : IsOrder ltb
ltb-IsOrder = record { asym = λ a b h. ground arith; trans = λ a b c h k. ground arith }

abbrev small_heap : List ℕ
small_heap = 1 ∷ 4 ∷ 2 ∷ 9 ∷ []

small_heap-IsHeap : IsHeap ltb small_heap
small_heap-IsHeap zero p q = absurd (omega arith)
small_heap-IsHeap (suc zero) p q = refl
small_heap-IsHeap (suc (suc zero)) p q = refl
small_heap-IsHeap (suc (suc (suc zero))) p q = refl
small_heap-IsHeap (suc (suc (suc (suc c)))) p q = absurd (omega arith)

heap_pop_example :
    (0 < 4 → (r : ℕ × List ℕ) × (heap_pop ltb small_heap ≡ some r) × Popped ltb small_heap r)
    × (◌≡◌ {A = ℕ} 4 0 → heap_pop ltb small_heap ≡ none)
heap_pop_example = heap_pop_correct ltb small_heap ltb-IsOrder small_heap-IsHeap

heap_push_example :
    IsHeap ltb (heap_push ltb small_heap 3) × Perm (heap_push ltb small_heap 3) (3 ∷ small_heap)
heap_push_example = heap_push_correct ltb small_heap 3 ltb-IsOrder small_heap-IsHeap

-- A queue for two processes, which holds the one numbered 7.
abbrev small_queue : Ring
small_queue = record { items = 7 ∷ 0 ∷ []; cap = 2; head = 0; len = 1 }

small_queue-IsValid : IsValid small_queue
small_queue-IsValid = record { storage = omega arith; head_in = omega arith; len_in = omega arith }

queue_push_example :
    (1 < 2
      → (r : Ring) × (queue_push small_queue 5 ≡ some r)
        × IsValid r
        × (r.cap ≡ 2)
        × (contents r ≡ contents small_queue ++ 5 ∷ []))
    × (2 ≤ 1 → queue_push small_queue 5 ≡ none)
queue_push_example = queue_push_correct small_queue 5 small_queue-IsValid

queue_pop_example :
    (0 < 1
      → (r : ℕ × Ring) × (queue_pop small_queue ≡ some r)
        × IsValid r.1
        × (r.1.cap ≡ 2)
        × (contents small_queue ≡ r.0 ∷ contents r.1))
    × (◌≡◌ {A = ℕ} 1 0 → queue_pop small_queue ≡ none)
queue_pop_example = queue_pop_correct small_queue small_queue-IsValid

ck_add_i64_example :
    (ck_add_i64 (pos int64_max) (negsuc 0) ≡ some (pos (int64_max - 1)))
    ↔ ((pos (int64_max - 1) ≡ pos int64_max +ℤ negsuc 0) × IsI64 (pos (int64_max - 1)))
ck_add_i64_example =
    ck_add_i64-exact (pos int64_max) (negsuc 0) (pos (int64_max - 1)) (omega arith, omega arith)
      (omega arith, omega arith)

ck_sub_i64_example :
    (ck_sub_i64 (pos 3) (pos 5) ≡ some (negsuc 1))
    ↔ ((negsuc 1 ≡ pos 3 -ℤ pos 5) × IsI64 (negsuc 1))
ck_sub_i64_example =
    ck_sub_i64-exact (pos 3) (pos 5) (negsuc 1) (omega arith, omega arith)
      (omega arith, omega arith)
