-- ===== src/Tests/Schedules.antt =====
-- Whole runs of the engine.
use preemptive_and_non_preem.Base.{ℕ, ◌≡◌, ◌≢◌, refl, true, Option, none, some, List, [], ◌∷◌}
use preemptive_and_non_preem.Core.{ok}
use preemptive_and_non_preem.Policy.{Policy}
use preemptive_and_non_preem.Policies.Fcfs.{
  policy_fcfs, fcfs_create, fcfs_next_slice, fcfs_on_arrival,
}
use preemptive_and_non_preem.Util.Ring.{queue_init, queue_push, queue_pop, queue_empty}
use preemptive_and_non_preem.Policies.Srtf.{
  Srtf, policy_srtf, srtf_create, srtf_next_slice, srtf_push, srtf_requeue, srtf_less,
}
use preemptive_and_non_preem.Policy.{sched_cmp_expected_remaining}
use preemptive_and_non_preem.Policies.Contracts.Heaped.{srtf-Contract}
use preemptive_and_non_preem.Engine.State.{Segment, Engine, run, add_time, append, blocked_less}
use preemptive_and_non_preem.Engine.Run.{
  sim_run, rounds, order_of, initial, check_options, close, event_loop, event_step, finish,
  not_after,
}
use preemptive_and_non_preem.Engine.Census.Order.{order_of-IsOrderOf}
use preemptive_and_non_preem.Engine.Census.Finish.{Decided, entered, rounds-Decided}
use preemptive_and_non_preem.Tests.Samples.{ticks, three, one_core, params}
use preemptive_and_non_preem.Util.Checked.{ck_add_i64}
use preemptive_and_non_preem.Base.Int.{◌+ℤ◌, ◌-ℤ◌}
use preemptive_and_non_preem.Base.Sort.{qsort, insert}
use preemptive_and_non_preem.Engine.Step.{
  wake_blocked, admit_arrivals, dispatch_one, end_run, admit_loop, admit_one, arrival_due,
  begin_run, begin_switch, block, burst_done, complete, occupy, predict_next, release, start_run,
  wake_due, wake_loop, wake_one,
}
use preemptive_and_non_preem.Util.Heap.{heap_empty, heap_pop, heap_push}
use preemptive_and_non_preem.Engine.Dispatch.{
  any_cut, collect, core_event, count_free, dispatch, end_full, find_core, finish_switch,
  finish_switches, interrupt, mark_recheck, next_event, place_home, place_rest, process_instant,
}
use preemptive_and_non_preem.Workload.{has_repeat, workload_horizon, workload_validate}

-- The timeline of core 0, latest segment first.
abbrev gantt : {S : Type 0} → Policy ℕ S → Option (List Segment)
gantt P = elim (sim_run ticks P 20 (λ k. true) three params one_core) [
  | some (ok, some e) ↦ some (e.timelines 0)
  | _ ↦ none
]

abbrev ran : ℕ → ℕ → ℕ → Segment
ran p from to = record { start = from; end = to; proc = some p; kind = run }

fcfs_gantt : gantt (policy_fcfs ℕ) ≡ some (ran 1 8 10 ∷ ran 2 5 8 ∷ ran 0 0 5 ∷ [])
unfolding policy_fcfs fcfs_create fcfs_next_slice fcfs_on_arrival queue_init queue_push queue_pop
    queue_empty ck_add_i64 ◌+ℤ◌ ◌-ℤ◌ qsort insert wake_blocked admit_arrivals dispatch_one add_time
    append heap_empty end_run any_cut collect core_event count_free dispatch end_full find_core
    finish_switch finish_switches interrupt mark_recheck next_event place_home place_rest
    process_instant check_options close event_loop event_step finish initial not_after order_of
    blocked_less admit_loop admit_one arrival_due begin_run begin_switch block burst_done complete
    occupy predict_next release start_run wake_due wake_loop wake_one heap_pop heap_push has_repeat
    workload_horizon workload_validate sim_run params
fcfs_gantt = refl

srtf_gantt : gantt (policy_srtf ticks) ≡ some (ran 0 6 10 ∷ ran 2 3 6 ∷ ran 1 1 3 ∷ ran 0 0 1 ∷ [])
unfolding policy_srtf srtf_create srtf_next_slice srtf_push srtf_requeue srtf_less
    sched_cmp_expected_remaining ck_add_i64 ◌+ℤ◌ ◌-ℤ◌ qsort insert wake_blocked admit_arrivals
    dispatch_one add_time append heap_empty end_run any_cut collect core_event count_free dispatch
    end_full find_core finish_switch finish_switches interrupt mark_recheck next_event place_home
    place_rest process_instant check_options close event_loop event_step finish initial not_after
    order_of blocked_less admit_loop admit_one arrival_due begin_run begin_switch block burst_done
    complete occupy predict_next release start_run wake_due wake_loop wake_one heap_pop heap_push
    has_repeat workload_horizon workload_validate sim_run params
srtf_gantt = refl

-- The engine at the end of the run with SRTF.
abbrev srtf_end : Engine ℕ Srtf
srtf_end = elim (sim_run ticks (policy_srtf ticks) 20 (λ k. true) three params one_core) [
  | some (ok, some e) ↦ e
  | _ ↦ initial ticks (policy_srtf ticks) three one_core [] []
]

srtf_runs :
    sim_run ticks (policy_srtf ticks) 20 (λ k. true) three params one_core
    ≡ some (ok, some srtf_end)
unfolding policy_srtf srtf_create srtf_next_slice srtf_push srtf_requeue srtf_less
    sched_cmp_expected_remaining ck_add_i64 ◌+ℤ◌ ◌-ℤ◌ qsort insert wake_blocked admit_arrivals
    dispatch_one add_time append heap_empty end_run any_cut collect core_event count_free dispatch
    end_full find_core finish_switch finish_switches interrupt mark_recheck next_event place_home
    place_rest process_instant check_options close event_loop event_step finish initial not_after
    order_of blocked_less admit_loop admit_one arrival_due begin_run begin_switch block burst_done
    complete occupy predict_next release start_run wake_due wake_loop wake_one heap_pop heap_push
    has_repeat workload_horizon workload_validate sim_run params
srtf_runs = refl

pub srtf_preempts : (policy_srtf ticks).on_preempt ≢ none
unfolding policy_srtf
srtf_preempts h = cc

rounds_example :
    Decided ticks three one_core
      (order_of three)
      (srtf-Contract ticks three.items)
      (order_of-IsOrderOf three)
      (rounds ticks
        (policy_srtf ticks)
        three
        one_core
        (order_of three)
        3
        (entered ticks three (srtf-Contract ticks three.items) one_core []))
unfolding policy_srtf srtf_create
rounds_example =
    rounds-Decided ticks three (srtf-Contract ticks three.items) params one_core [] 3 srtf_preempts
      refl
