-- ===== src/Engine/Run.antt =====
-- `check_options` and `sim_run`: validation, initial state, event loop and result.
use preemptive_and_non_preem.Base.{
  ℕ, zero, suc, ◌+◌, ◌/◌, Bool, true, false, not, ◌&&◌, ◌||◌, Option, none, some, List, [], ◌∷◌,
  ltb, leb, ◌==◌, if◌then◌else◌, length, get_or,
}
use preemptive_and_non_preem.Base.Int.{pos, pos_part, ltb_ℤ, leb_ℤ, i64_max, ◌-ℤ◌}
use preemptive_and_non_preem.Base.Sort.{qsort}
use preemptive_and_non_preem.Core.{Workload, SchedStatus, ok, e_input, e_usage, e_nomem}
use preemptive_and_non_preem.Policy.{Float, View, PolicyParams, Policy, arrival_of, pid_of}
use preemptive_and_non_preem.Workload.{workload_validate, workload_horizon}
use preemptive_and_non_preem.Engine.State.{
  idle, Core, EngineFail, fine, nomem, limit, overflow, PredictMode, oracle, ewma, SimOptions,
  Engine, append, is_fine,
}
use preemptive_and_non_preem.Engine.Step.{phase_len, start_run}
use preemptive_and_non_preem.Engine.Dispatch.{dispatch, process_instant, next_event}

abbrev pub max_cores : ℕ
max_cores = 1024

abbrev pub is_ewma : PredictMode → Bool
is_ewma oracle = false
is_ewma ewma = true

-- The order of `cmp_arrival_key`: not after by (arrival, pid).
unfoldable pub not_after : Workload → ℕ → ℕ → Bool
not_after w a b =
    if arrival_of w.items a == arrival_of w.items b
    then leb (pid_of w.items a) (pid_of w.items b)
    else ltb (arrival_of w.items a) (arrival_of w.items b)

-- The indices below `n`, from `i` on.
abbrev pub indices : ℕ → ℕ → List ℕ
indices zero i = []
indices (suc n) i = i ∷ indices n (i + 1)

-- `e.order`: the process indices sorted by (arrival, pid).
unfoldable pub order_of : Workload → List ℕ
unfolding not_after
order_of w = qsort (not_after w) (indices (length w.items) 0)

abbrev pub status_of : EngineFail → SchedStatus
status_of fine = ok
status_of limit = e_input
status_of overflow = e_input
status_of nomem = e_nomem

module _ {D S : Type 0} (f : Float D) (P : Policy D S) where
  unfoldable pub check_options : Workload → PolicyParams → SimOptions D → SchedStatus
  unfolding workload_horizon ◌-ℤ◌
  check_options w params o =
      let room = pos_part (i64_max -ℤ workload_horizon w) in
      let bad_ewma =
        not (f.le (f.of_i64 0) o.alpha && f.le o.alpha (f.of_i64 1))
        || not (f.lt (f.of_i64 0) o.tau0)
        || not (f.is_finite o.tau0) in
      if P.uses_quantum && leb_ℤ params.quantum (pos 0)
      then e_usage
      else if ltb o.cores 1 || ltb max_cores o.cores
      then e_usage
      else if ltb o.max_segments 1
      then e_usage
      else if is_ewma o.predict && bad_ewma
      then e_usage
      else if ltb_ℤ o.cs_cost (pos 0)
          || (ltb_ℤ (pos 0) o.cs_cost && ltb (room / o.max_segments) (pos_part o.cs_cost))
      then e_usage
      else ok

  module _ (w : Workload) (opt : SimOptions D) (order : List ℕ) where
    -- `out->first_arrival`
    abbrev pub first_arrival : ℕ
    first_arrival = arrival_of w.items (get_or order 0 0)

    abbrev pub free_core : Core
    free_core = record {
      proc = none;
      in_cs = false;
      recheck = false;
      busy_until = 0;
      run_start = 0;
      run_end = 0;
      length = 0;
      deadline = 0;
      context = none;
      free_since = first_arrival;
    }

    -- The predictions at the start.
    abbrev pub first_predicted : Option (ℕ → D)
    first_predicted = if is_ewma opt.predict then some (λ p. opt.tau0) else none

    -- The view that `create` is given.
    abbrev pub first_view : View D
    first_view = record {
      procs = w.items;
      n = length w.items;
      cores = opt.cores;
      cs_cost = pos_part opt.cs_cost;
      now = first_arrival;
      remaining = λ p. phase_len w p 0;
      burst_len = λ p. phase_len w p 0;
      predicted = first_predicted;
    }

    -- The engine after `create`: every process at its first phase, every core free.
    unfoldable pub initial : S → Engine D S
    initial state = record {
      state = state;
      now = first_arrival;
      next = 0;
      remaining = λ p. phase_len w p 0;
      burst_len = λ p. phase_len w p 0;
      predicted = first_predicted;
      phase = λ p. 0;
      wake = λ p. 0;
      blocked = [];
      cores = λ c. free_core;
      segments = 0;
      completed = 0;
      fail = fine;
      start = λ p. none;
      completion = λ p. none;
      timelines = λ c. [];
      switches = 0;
      cs_time = 0;
    }

    -- One round of the event loop.
    unfoldable pub event_step : Engine D S → Engine D S
    unfolding dispatch next_event process_instant start_run
    event_step e =
        let e' = dispatch f P w opt order e in
        process_instant f P w opt order (record e' { now = next_event f P w opt order e' })

    -- `k` rounds, without the test of the event loop.
    unfoldable pub rounds : ℕ → Engine D S → Engine D S
    unfolding event_step
    rounds zero e = e
    rounds (suc k) e = event_step (rounds k e)

    -- The event loop; `none` means that the fuel ran out.
    unfoldable pub event_loop : ℕ → Engine D S → Option (Engine D S)
    event_loop zero e = none
    event_loop (suc fuel) e =
        let rest = event_loop fuel (event_step e) in
        if ltb e.completed (length w.items) && is_fine e.fail then rest else some e

    -- The idle time of each core up to the end.
    unfoldable pub close : ℕ → ℕ → Engine D S → Engine D S
    close zero c e = e
    close (suc left) c e = close left (c + 1) (
        append w opt e c
          (record { start = (e.cores c).free_since; end = e.now; proc = none; kind = idle }))

    -- What `sim_run` makes of the end of the loop.
    unfoldable pub finish : Option (Engine D S) → Option (SchedStatus × Option (Engine D S))
    unfolding close
    finish none = none
    finish (some e) =
        let e' = close opt.cores 0 e in
        some (status_of e'.fail, if is_fine e'.fail then some e' else none)

  -- The status, and the engine's final state where it is `ok`. `none` means that the fuel ran out.
  -- Its own arrays are taken to be allocated.
  unfoldable pub sim_run :
      ℕ
      → (ℕ → Bool)
      → Workload
      → PolicyParams
      → SimOptions D
      → Option (SchedStatus × Option (Engine D S))
  unfolding workload_validate check_options order_of initial event_loop event_step finish
      process_instant
  sim_run fuel alloc w params opt =
      let order = order_of w in
      let run_from : S → Option (SchedStatus × Option (Engine D S)) = λ s.
        finish w opt order
          (event_loop w opt order fuel (process_instant f P w opt order (initial w opt order s))) in
      elim (workload_validate alloc w) [
        | ok ↦ elim (check_options w params opt) [
          | ok ↦ elim (P.create (first_view w opt order) params) [
            | none ↦ some (e_usage, none)
            | some s ↦ run_from s
          ]
          | bad ↦ some (bad, none)
        ]
        | bad ↦ some (bad, none)
      ]
