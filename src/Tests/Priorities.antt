-- ===== src/Tests/Priorities.antt =====
-- The priority policies at concrete inputs: a queue of three processes, two of which joined later.
use preemptive_and_non_preem.Base.{
  ℕ, ◌+◌, ◌<◌, ◌≤◌, ◌≡◌, ◌⊎◌, inl, inr, refl, true, false, none, some, [], ◌∷◌, arith, ltb,
}
use preemptive_and_non_preem.Base.Int.{pos, ◌+ℤ◌, ◌-ℤ◌, ◌*ℤ◌, ◌/ℤ◌, ◌%ℤ◌}
use preemptive_and_non_preem.Core.{Workload, ok}
use preemptive_and_non_preem.Policy.{View, HasDistinctPids, Slice}
use preemptive_and_non_preem.Policies.Prio.{
  enqueue, set_keys, floor_div, choose, pick, deadline_at, take_slice, prio_next_slice,
  prio_new_burst,
}
use preemptive_and_non_preem.Policies.Prio.Tree.{
  Prio, leaf, sat_sub, key_less, better_of, node_before, pull, split, insert, merge, merge_onto,
  erase, best_below, best_below_from, best_at_or_above, best_above_from, max_r_below, max_r_from,
  max_r, last_r, inorder,
}
use preemptive_and_non_preem.Policies.Prio.Shape.{Has, Has-leaf, copies, copies-leaf}
use preemptive_and_non_preem.Policies.Prio.Sound.{IsSound}
use preemptive_and_non_preem.Policies.Prio.Hooks.{enqueue-IsSound, take_slice-IsSound}
use preemptive_and_non_preem.Policies.Prio.Effective.{effective, IsInRange}
use preemptive_and_non_preem.Policies.Prio.Deadline.{deadline_at-steady}
use preemptive_and_non_preem.Policies.Prio.Least.{goes_before, prio_next_slice-IsFirst}
use preemptive_and_non_preem.Policies.Contracts.Treaped.{joined_fresh}
use preemptive_and_non_preem.Policy.Contract.{Room}
use preemptive_and_non_preem.Base.Weight.{weigh, count, indicator}
use preemptive_and_non_preem.Util.Bits.{mix}
use preemptive_and_non_preem.Util.Checked.{ck_add_i64, ck_sub_i64}
use preemptive_and_non_preem.Workload.{workload_validate, has_repeat}
use preemptive_and_non_preem.Workload.Distinct.{workload_validate-HasDistinctPids}
use preemptive_and_non_preem.Base.Sort.{qsort}
use preemptive_and_non_preem.Tests.Samples.{proc}

-- The first output of SplitMix64 with the seed 0.
mix_zero : mix 0 ≡ 16294208416658607535
unfolding mix
mix_zero = refl

abbrev pub ranked : Workload
ranked = record {
  items =
      record (proc 1 0 5 0) { priority = pos 3 }
      ∷ record (proc 3 1 2 1) { priority = pos 2 }
      ∷ record (proc 2 1 3 2) { priority = pos 2 }
      ∷ [];
  cap = 16;
  phases = pos 5 ∷ pos 2 ∷ pos 3 ∷ [];
  phases_cap = 16;
}

pub ranked_valid : workload_validate (λ k. true) ranked ≡ ok
unfolding workload_validate has_repeat qsort ck_add_i64 ◌+ℤ◌ ◌-ℤ◌
ranked_valid = refl

abbrev at : ℕ → View ℕ
at now = record {
  procs = ranked.items;
  n = 3;
  cores = 1;
  cs_cost = 0;
  now = now;
  remaining = λ p. 5;
  burst_len = λ p. 5;
  predicted = none;
}

abbrev pub no_queue : Prio
no_queue = record {
  procs = ranked.items;
  preemptive = true;
  aging = 4;
  waited = λ p. 0;
  ready_since = λ p. 0;
  root = leaf;
  heap_prio = mix;
  r = λ p. pos 0;
  base = λ p. pos 0;
}

unfoldable queue : Prio
unfolding prio_new_burst
queue = prio_new_burst (at 1) (prio_new_burst (at 1) (prio_new_burst (at 0) no_queue 0) 1) 2

queue_order : inorder queue.root ≡ 0 ∷ 2 ∷ 1 ∷ []
unfolding queue prio_new_burst enqueue set_keys floor_div sat_sub ck_sub_i64 insert split pull
    better_of key_less node_before inorder mix ◌+ℤ◌ ◌-ℤ◌ ◌*ℤ◌ ◌/ℤ◌ ◌%ℤ◌
queue_order = refl

pids : HasDistinctPids ranked.items
pids = workload_validate-HasDistinctPids (λ k. true) ranked ranked_valid

workload_validate-HasDistinctPids_example : HasDistinctPids ranked.items
workload_validate-HasDistinctPids_example =
    workload_validate-HasDistinctPids (λ k. true) ranked ranked_valid

no_queue-IsSound : IsSound ranked.items no_queue
no_queue-IsSound = record {
  view = refl;
  tree = tt;
  inside = λ y q. absurd (Has-leaf y q);
  once = λ y. omega (arith, copies-leaf y);
  keyed = λ y q. absurd (Has-leaf y q);
}

abbrev one_queued : Prio
one_queued = prio_new_burst (at 0) no_queue 0

abbrev two_queued : Prio
two_queued = prio_new_burst (at 1) one_queued 1

space_0 : Room 3 (inorder no_queue.root) 0
unfolding inorder weigh
space_0 = record { space = omega arith; inside = omega arith; absent = refl }

space_1 : Room 3 (inorder one_queued.root) 1
unfolding prio_new_burst enqueue set_keys floor_div sat_sub ck_sub_i64 insert split pull better_of
    key_less node_before inorder mix ◌+ℤ◌ ◌-ℤ◌ ◌*ℤ◌ ◌/ℤ◌ ◌%ℤ◌ weigh
space_1 = record { space = omega arith; inside = omega arith; absent = refl }

space_2 : Room 3 (inorder two_queued.root) 2
unfolding prio_new_burst enqueue set_keys floor_div sat_sub ck_sub_i64 insert split pull better_of
    key_less node_before inorder mix ◌+ℤ◌ ◌-ℤ◌ ◌*ℤ◌ ◌/ℤ◌ ◌%ℤ◌ weigh
space_2 = record { space = omega arith; inside = omega arith; absent = refl }

two_queued-IsSound : IsSound ranked.items two_queued
two_queued-IsSound =
    let first = joined_fresh pids (at 0) no_queue 0 no_queue-IsSound space_0 in
    (joined_fresh pids (at 1) one_queued 1 first.0 space_1).0

queue-IsSound : IsSound ranked.items queue
unfolding queue
queue-IsSound = (joined_fresh pids (at 1) two_queued 2 two_queued-IsSound space_2).0

who_is_queued : (y : ℕ) → Has queue.root y → ((y ≡ 0) ⊎ (y ≡ 2)) ⊎ (y ≡ 1)
unfolding weigh
who_is_queued y q = let h : 0 < count y (0 ∷ 2 ∷ 1 ∷ []) = rw queue_order at q in ground (arith, h)

joined_early : (y : ℕ) → Has queue.root y → queue.ready_since y ≤ 1
unfolding queue prio_new_burst enqueue set_keys
joined_early y q = elim (who_is_queued y q) [
  | inl (inl e) ↦ rw e (omega arith)
  | inl (inr e) ↦ rw e (omega arith)
  | inr e ↦ rw e (omega arith)
]

bases : (y : ℕ) → Has queue.root y → IsInRange queue y
unfolding queue prio_new_burst enqueue set_keys floor_div sat_sub ck_sub_i64 ◌+ℤ◌ ◌-ℤ◌ ◌*ℤ◌ ◌/ℤ◌
    ◌%ℤ◌
bases y q = elim (who_is_queued y q) [
  | inl (inl e) ↦ rw e ((omega arith, omega arith), refl, refl)
  | inl (inr e) ↦ rw e ((omega arith, omega arith), refl, refl)
  | inr e ↦ rw e ((omega arith, omega arith), refl, refl)
]

abbrev slice_at_6 : Slice
slice_at_6 = record { proc = 2; length = 5; deadline = 8 }

-- At 6 the first process has gained one level since 0 and the others one since 1; those two tie on the
-- arrival, too.
slices_at_6 : (prio_next_slice (at 6) queue).0 ≡ some slice_at_6
unfolding queue prio_next_slice prio_new_burst enqueue set_keys floor_div sat_sub ck_sub_i64
    ck_add_i64 insert split pull better_of key_less node_before mix merge merge_onto erase choose
    pick take_slice deadline_at best_below best_below_from best_at_or_above best_above_from
    max_r_below max_r_from max_r last_r ◌+ℤ◌ ◌-ℤ◌ ◌*ℤ◌ ◌/ℤ◌ ◌%ℤ◌
slices_at_6 = refl

prio_next_slice_example :
    Has queue.root 2 × ((y : ℕ) → Has queue.root y → goes_before queue 6 y 2 ≡ false)
prio_next_slice_example =
    prio_next_slice-IsFirst (at 6) queue slice_at_6 queue-IsSound
      (λ y q. omega (arith, joined_early y q)) bases slices_at_6

queued_0 : Has queue.root 0
unfolding weigh
queued_0 = rw queue_order (omega arith)

at_deadline : deadline_at queue 6 ≡ 8
unfolding queue prio_new_burst enqueue set_keys floor_div sat_sub ck_sub_i64 ck_add_i64 insert split
    pull better_of key_less node_before mix deadline_at max_r_below max_r_from max_r last_r ◌+ℤ◌
    ◌-ℤ◌ ◌*ℤ◌ ◌/ℤ◌ ◌%ℤ◌
at_deadline = refl

ages : ltb 0 queue.aging ≡ true
unfolding queue prio_new_burst enqueue set_keys
ages = refl

deadline_example : effective queue 7 0 ≡ effective queue 6 0
deadline_example =
    deadline_at-steady queue 6 7 0 queue-IsSound ages queued_0
      (omega (arith, joined_early 0 queued_0)) (omega arith) (omega (arith, at_deadline))

enqueue_example :
    IsSound ranked.items (enqueue (at 1) two_queued 2)
    × ((y : ℕ)
        → copies y (enqueue (at 1) two_queued 2).root ≡ copies y two_queued.root + indicator y 2)
enqueue_example = enqueue-IsSound pids (at 1) two_queued 2 two_queued-IsSound space_2

take_slice_example :
    IsSound ranked.items (take_slice (at 6) queue 0).1
    × ((y : ℕ) → copies y (take_slice (at 6) queue 0).1.root + indicator y 0 ≡ copies y queue.root)
take_slice_example = take_slice-IsSound pids (at 6) queue 0 queue-IsSound queued_0

-- Two priorities so great that their keys saturate, with a step of one tick.
abbrev great : Workload
great = record {
  items =
      record (proc 1 9 1 0) { priority = pos 9_223_372_036_854_775_806 }
      ∷ record (proc 2 10 1 1) { priority = pos 9_223_372_036_854_775_804 }
      ∷ [];
  cap = 16;
  phases = pos 1 ∷ pos 1 ∷ [];
  phases_cap = 16;
}

great_valid : workload_validate (λ k. true) great ≡ ok
unfolding workload_validate has_repeat qsort ck_add_i64 ◌+ℤ◌ ◌-ℤ◌
great_valid = refl

unfoldable saturated : Prio
unfolding prio_new_burst
saturated =
    prio_new_burst (at 10)
      (prio_new_burst (at 9) (record no_queue { procs = great.items; aging = 1 }) 0) 1

-- The first is picked, although the other has the lesser effective priority.
saturated_picks : (pick saturated 10 ≡ some 0) × (goes_before saturated 10 1 0 ≡ true)
unfolding saturated prio_new_burst enqueue set_keys floor_div sat_sub ck_sub_i64 insert split pull
    better_of key_less node_before mix pick choose best_below best_below_from best_at_or_above
    best_above_from goes_before effective ◌+ℤ◌ ◌-ℤ◌ ◌*ℤ◌ ◌/ℤ◌ ◌%ℤ◌
saturated_picks = (refl, refl)
