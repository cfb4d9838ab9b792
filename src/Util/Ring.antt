-- ===== src/Util/Ring.antt =====
-- src/util/queue.c: the fixed-capacity ring buffer of process indices that FCFS and Round Robin use.
pub mod Refine
use preemptive_and_non_preem.Base.{
  ℕ, ◌+◌, ◌-◌, ◌%◌, Bool, Option, none, some, List, ltb, ◌==◌, if◌then◌else◌, get_or, set,
  replicate,
}

-- `Queue`
pub record Ring : Type 0 where
  pub items : List ℕ
  pub cap : ℕ
  pub head : ℕ
  pub len : ℕ

-- Allocates one entry for a capacity of 0; the contents of fresh memory are not read.
unfoldable pub queue_init : ℕ → Ring
queue_init cap = record {
  items = replicate (if cap == 0 then 1 else cap) 0;
  cap = cap;
  head = 0;
  len = 0;
}

unfoldable pub queue_empty : Ring → Bool
queue_empty q = q.len == 0

-- `none` is the failed assertion on a full queue.
unfoldable pub queue_push : Ring → ℕ → Option Ring
queue_push q v =
    if ltb q.len q.cap
    then some (record q { items = set q.items ((q.head + q.len) % q.cap) v; len = q.len + 1 })
    else none

-- `none` is the failed assertion on an empty queue.
unfoldable pub queue_pop : Ring → Option (ℕ × Ring)
queue_pop q =
    if ltb 0 q.len
    then some (get_or q.items q.head 0, record q { head = (q.head + 1) % q.cap; len = q.len - 1 })
    else none
