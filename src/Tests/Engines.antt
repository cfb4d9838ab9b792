-- ===== src/Tests/Engines.antt =====
-- The steps of the engine at the start of a run of SRTF on one core.
use preemptive_and_non_preem.Base.{
  ℕ, zero, suc, ◌≡◌, Bool, false, refl, ap, none, some, List, [], ◌∷◌, arith,
}
use preemptive_and_non_preem.Policy.Contract.{Contract}
use preemptive_and_non_preem.Policies.Srtf.{
  Srtf, policy_srtf, srtf_create, srtf_push, srtf_next_slice, srtf_less,
}
use preemptive_and_non_preem.Policy.{sched_cmp_expected_remaining}
use preemptive_and_non_preem.Base.Int.{◌+ℤ◌, ◌-ℤ◌}
use preemptive_and_non_preem.Base.Sort.{qsort, insert}
use preemptive_and_non_preem.Base.Weight.{weigh, total}
use preemptive_and_non_preem.Util.Checked.{ck_add_i64}
use preemptive_and_non_preem.Util.Heap.{heap_push, heap_pop, heap_empty}
use preemptive_and_non_preem.Util.Heap.Order.{IsHeap}
use preemptive_and_non_preem.Policies.Contracts.Heaped.{srtf-Contract}
use preemptive_and_non_preem.Engine.State.{Engine, Segment, idle, append, add_time, blocked_less}
use preemptive_and_non_preem.Engine.Timeline.{Appended, append-Appended}
use preemptive_and_non_preem.Engine.Step.{
  admit_arrivals, wake_blocked, end_run, admit_loop, admit_one, arrival_due, wake_loop, wake_due,
  dispatch_one, occupy, begin_run, start_run,
}
use preemptive_and_non_preem.Engine.Dispatch.{
  dispatch, process_instant, end_full, any_cut, mark_recheck, finish_switches, interrupt, collect,
  count_free, find_core, place_home, place_rest,
}
use preemptive_and_non_preem.Engine.Run.{initial, first_view, event_step, order_of, not_after}
use preemptive_and_non_preem.Engine.Census.{Balanced, IsOrderOf, census}
use preemptive_and_non_preem.Engine.Census.Order.{
  order_of-IsOrderOf, order_of-IsByArrival, IsByArrival,
}
use preemptive_and_non_preem.Engine.Census.Due.{
  Admitted, Woken, waiting, admit_arrivals-Admitted, wake_blocked-Woken,
}
use preemptive_and_non_preem.Engine.Census.Ended.{Ended, end_run-Ended}
use preemptive_and_non_preem.Engine.Census.Placing.{dispatch-Balanced}
use preemptive_and_non_preem.Engine.Census.Instant.{
  initial-Balanced, process_instant-Balanced, event_step-Balanced,
}
use preemptive_and_non_preem.Tests.Samples.{ticks, three, one_core, params}
use preemptive_and_non_preem.Tests.Schedules.{srtf_preempts}

abbrev order : List ℕ
order = order_of three

abbrev start : Engine ℕ Srtf
start = initial ticks (policy_srtf ticks) three one_core order []

abbrev contract : Contract (policy_srtf ticks) three.items
contract = srtf-Contract ticks three.items

abbrev IsFine : Engine ℕ Srtf → Type 0
IsFine e = Balanced contract one_core order [] e

ordered : IsOrderOf 3 order
ordered = order_of-IsOrderOf three

start-IsFine : IsFine start
unfolding policy_srtf srtf_create
start-IsFine =
    let view = first_view ticks (policy_srtf ticks) three one_core order in
    let (good, nobody) = contract.creates view params [] refl refl refl in
    initial-Balanced ticks three one_core order contract ordered srtf_preempts [] good nobody

-- The three arrivals are admitted at the start of the run.
process_instant_example :
    IsFine (process_instant ticks (policy_srtf ticks) three one_core order start)
process_instant_example =
    process_instant-Balanced ticks three one_core order contract ordered srtf_preempts start
      start-IsFine

-- The first arrival is at the policy, and the core is free.
abbrev arrived : Engine ℕ Srtf
arrived = process_instant ticks (policy_srtf ticks) three one_core order start

arrived-IsFine : IsFine arrived
arrived-IsFine =
    process_instant-Balanced ticks three one_core order contract ordered srtf_preempts start
      start-IsFine

event_step_example : IsFine (event_step ticks (policy_srtf ticks) three one_core order arrived)
event_step_example =
    event_step-Balanced ticks three one_core order contract ordered srtf_preempts arrived
      arrived-IsFine

dispatch_example : IsFine (dispatch ticks (policy_srtf ticks) three one_core order arrived)
dispatch_example = dispatch-Balanced ticks three one_core order contract arrived arrived-IsFine

-- The core has a process now, whose slice ends.
abbrev dispatched : Engine ℕ Srtf
dispatched = dispatch ticks (policy_srtf ticks) three one_core order arrived

dispatched-IsFine : IsFine dispatched
dispatched-IsFine = dispatch-Balanced ticks three one_core order contract arrived arrived-IsFine

runs_first : (dispatched.cores 0).proc ≡ some 0
unfolding initial order_of not_after qsort insert process_instant admit_arrivals admit_loop
    admit_one arrival_due wake_blocked wake_loop wake_due end_full any_cut mark_recheck
    finish_switches interrupt dispatch collect count_free find_core place_home place_rest
    dispatch_one occupy begin_run start_run append add_time ck_add_i64 ◌+ℤ◌ ◌-ℤ◌ policy_srtf
    srtf_create srtf_push srtf_next_slice srtf_less sched_cmp_expected_remaining heap_push heap_pop
    heap_empty
runs_first = refl

end_run_example :
    IsFine (end_run ticks (policy_srtf ticks) three one_core order dispatched 0).0
    × Ended ticks three one_core order contract dispatched 0 0
        (end_run ticks (policy_srtf ticks) three one_core order dispatched 0)
end_run_example =
    end_run-Ended ticks three one_core order contract ordered [] dispatched 0 0 (omega arith)
      runs_first srtf_preempts dispatched-IsFine

order_of_example : IsOrderOf 3 order × IsByArrival three order
order_of_example = order_of-IsByArrival three

abbrev admits : Engine ℕ Srtf × Bool
admits = admit_arrivals ticks (policy_srtf ticks) three one_core order start

admit_arrivals_example :
    Admitted ticks three one_core order contract ordered [] start false admits
    × ((g : ℕ → ℕ)
        → waiting ticks three one_core order contract ordered [] g admits.0
          ≡ waiting ticks three one_core order contract ordered [] g start)
admit_arrivals_example =
    admit_arrivals-Admitted ticks three one_core order contract ordered [] start
      (order_of-IsByArrival three).1 start-IsFine

-- The first process has arrived and waits for the end of its I/O at 4, which is now.
abbrev blocking : Engine ℕ Srtf
blocking = record start { next = 1; blocked = 0 ∷ []; wake = λ p. 4; now = 4 }

none_ready : contract.ready start.state ≡ []
unfolding policy_srtf srtf_create initial
none_ready =
    (contract.creates (first_view ticks (policy_srtf ticks) three one_core order) params [] refl
      refl refl).1

blocking-IsFine : IsFine blocking
unfolding initial census weigh total order_of not_after qsort insert
blocking-IsFine = record {
  balance = λ g. omega (arith, ap (weigh g) none_ready);
  good = start-IsFine.good;
  admitted = omega arith;
  counted = refl;
}

one_entry : IsHeap (blocked_less three one_core blocking) (0 ∷ [])
one_entry zero lo hi = absurd (omega arith)
one_entry (suc c) lo hi = absurd (omega arith)

abbrev wakes : Engine ℕ Srtf × Bool
wakes = wake_blocked ticks (policy_srtf ticks) three one_core order blocking

wake_blocked_example :
    Woken ticks three one_core order contract ordered [] blocking false wakes
    × ((g : ℕ → ℕ)
        → waiting ticks three one_core order contract ordered [] g wakes.0
          ≡ waiting ticks three one_core order contract ordered [] g blocking)
wake_blocked_example =
    wake_blocked-Woken ticks three one_core order contract ordered [] blocking one_entry
      blocking-IsFine

-- Five idle units of time on core 0, whose timeline is empty.
abbrev gap : Segment
gap = record { start = 0; end = 5; proc = none; kind = idle }

append_example : Appended three one_core 0 0 gap start (append three one_core start 0 gap)
unfolding initial append
append_example = append-Appended three one_core 0 start gap 0 refl (omega arith) (omega arith) refl
