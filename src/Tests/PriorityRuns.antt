-- ===== src/Tests/PriorityRuns.antt =====
-- A whole run with preemptive priority scheduling and aging.
use preemptive_and_non_preem.Base.{ℕ, ◌≡◌, refl, true, some, [], ◌∷◌}
use preemptive_and_non_preem.Core.{ok}
use preemptive_and_non_preem.Policy.{PolicyParams, policy_params_default}
use preemptive_and_non_preem.Policies.Prio.{
  policy_prio_p, prio_p_create, create, prio_new_burst, prio_requeue, prio_next_slice, enqueue,
  set_keys, floor_div, choose, pick, take_slice, deadline_at,
}
use preemptive_and_non_preem.Policies.Prio.Tree
use preemptive_and_non_preem.Policies.Prio.Tree.{
  Prio, sat_sub, split, pull, better_of, key_less, node_before, merge, merge_onto, erase,
  best_below, best_below_from, best_at_or_above, best_above_from, max_r_below, max_r_from, max_r,
  last_r,
}
use preemptive_and_non_preem.Policies.Prio.Runs.{rounds-prio_p}
use preemptive_and_non_preem.Policies.Contracts.Treaped.{prio_p-Contract}
use preemptive_and_non_preem.Workload.Distinct.{workload_validate-HasDistinctPids}
use preemptive_and_non_preem.Engine.Census.Order.{order_of-IsOrderOf}
use preemptive_and_non_preem.Engine.Census.Finish.{Decided, entered}
use preemptive_and_non_preem.Util.Bits.{mix}
use preemptive_and_non_preem.Tests.Priorities.{ranked, ranked_valid, no_queue}
use preemptive_and_non_preem.Engine.State.{Segment, Engine, run, add_time, append, blocked_less}
use preemptive_and_non_preem.Engine.Run.{
  sim_run, rounds, first_view, order_of, initial, check_options, close, event_loop, event_step,
  finish, not_after,
}
use preemptive_and_non_preem.Util.Checked.{ck_add_i64, ck_sub_i64}
use preemptive_and_non_preem.Base.Int.{◌+ℤ◌, ◌-ℤ◌, ◌*ℤ◌, ◌/ℤ◌, ◌%ℤ◌}
use preemptive_and_non_preem.Base.Sort.{qsort, insert}
use preemptive_and_non_preem.Engine.Step.{
  wake_blocked, admit_arrivals, dispatch_one, end_run, admit_loop, admit_one, arrival_due,
  begin_run, begin_switch, block, burst_done, complete, occupy, predict_next, release, start_run,
  wake_due, wake_loop, wake_one,
}
use preemptive_and_non_preem.Util.Heap.{heap_empty, heap_pop, heap_push}
use preemptive_and_non_preem.Engine.Dispatch.{
  any_cut, collect, core_event, count_free, dispatch, end_full, find_core, finish_switch,
  finish_switches, interrupt, mark_recheck, next_event, place_home, place_rest, process_instant,
}
use preemptive_and_non_preem.Workload.{has_repeat, workload_horizon, workload_validate}
use preemptive_and_non_preem.Tests.Samples.{ticks, one_core}

unfoldable aging_2 : PolicyParams
unfolding policy_params_default
aging_2 = record policy_params_default { aging = 2 }

-- The engine at the end of the run.
abbrev prio_p_end : Engine ℕ Prio
prio_p_end = elim (sim_run ticks (policy_prio_p ℕ) 20 (λ k. true) ranked aging_2 one_core) [
  | some (ok, some e) ↦ e
  | _ ↦ initial ticks (policy_prio_p ℕ) ranked one_core [] no_queue
]

prio_p_runs :
    sim_run ticks (policy_prio_p ℕ) 20 (λ k. true) ranked aging_2 one_core
    ≡ some (ok, some prio_p_end)
unfolding policy_prio_p prio_p_create create prio_new_burst prio_requeue prio_next_slice enqueue
    set_keys floor_div sat_sub ck_sub_i64 Tree.insert split pull better_of key_less node_before mix
    merge merge_onto erase choose pick take_slice deadline_at best_below best_below_from
    best_at_or_above best_above_from max_r_below max_r_from max_r last_r ◌*ℤ◌ ◌/ℤ◌ ◌%ℤ◌ ck_add_i64
    ◌+ℤ◌ ◌-ℤ◌ qsort insert wake_blocked admit_arrivals dispatch_one add_time append heap_empty
    end_run any_cut collect core_event count_free dispatch end_full find_core finish_switch
    finish_switches interrupt mark_recheck next_event place_home place_rest process_instant
    check_options close event_loop event_step finish initial not_after order_of blocked_less
    admit_loop admit_one arrival_due begin_run begin_switch block burst_done complete occupy
    predict_next release start_run wake_due wake_loop wake_one heap_pop heap_push has_repeat
    workload_horizon workload_validate sim_run policy_params_default aging_2
prio_p_runs = refl

abbrev ran : ℕ → ℕ → ℕ → Segment
ran p from to = record { start = from; end = to; proc = some p; kind = run }

prio_p_gantt :
    prio_p_end.timelines 0
    ≡ ran 0 8 10 ∷ ran 2 7 8 ∷ ran 0 5 7 ∷ ran 1 3 5 ∷ ran 2 1 3 ∷ ran 0 0 1 ∷ []
unfolding policy_prio_p prio_p_create create prio_new_burst prio_requeue prio_next_slice enqueue
    set_keys floor_div sat_sub ck_sub_i64 Tree.insert split pull better_of key_less node_before mix
    merge merge_onto erase choose pick take_slice deadline_at best_below best_below_from
    best_at_or_above best_above_from max_r_below max_r_from max_r last_r ◌*ℤ◌ ◌/ℤ◌ ◌%ℤ◌ ck_add_i64
    ◌+ℤ◌ ◌-ℤ◌ qsort insert wake_blocked admit_arrivals dispatch_one add_time append heap_empty
    end_run any_cut collect core_event count_free dispatch end_full find_core finish_switch
    finish_switches interrupt mark_recheck next_event place_home place_rest process_instant
    check_options close event_loop event_step finish initial not_after order_of blocked_less
    admit_loop admit_one arrival_due begin_run begin_switch block burst_done complete occupy
    predict_next release start_run wake_due wake_loop wake_one heap_pop heap_push has_repeat
    workload_horizon workload_validate sim_run policy_params_default aging_2
prio_p_gantt = refl

rounds-prio_p_example :
    (s : Prio) × ((policy_prio_p ℕ).create
        (first_view ticks (policy_prio_p ℕ) ranked one_core (order_of ranked))
        aging_2
      ≡ some s)
    × ((k : ℕ)
        → Decided ticks ranked one_core
            (order_of ranked)
            (prio_p-Contract (workload_validate-HasDistinctPids (λ k. true) ranked ranked_valid))
            (order_of-IsOrderOf ranked)
            (rounds ticks (policy_prio_p ℕ) ranked one_core (order_of ranked) k (
              entered ticks ranked
                (prio_p-Contract
                  (workload_validate-HasDistinctPids (λ k. true) ranked ranked_valid))
                one_core
                s)))
rounds-prio_p_example = rounds-prio_p ticks (λ k. true) ranked aging_2 one_core ranked_valid
