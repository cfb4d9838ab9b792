-- ===== src/Engine/Step.antt =====
-- The parts of one instant: arrivals, wake-ups, ends of bursts and slices, starts of slices.
use preemptive_and_non_preem.Base.{
  ℕ, zero, suc, ◌+◌, ◌-◌, Bool, true, false, not, ◌&&◌, none, some, List, ltb, leb, ◌==◌,
  if◌then◌else◌, length, get_or, update,
}
use preemptive_and_non_preem.Base.Int.{pos, pos_part}
use preemptive_and_non_preem.Core.{Workload, workload_phases}
use preemptive_and_non_preem.Policy.{Float, Slice, Policy, proc_at, arrival_of}
use preemptive_and_non_preem.Policy.Contract.{wake, hook}
use preemptive_and_non_preem.Util.Heap.{heap_empty, heap_push, heap_pop, at}
use preemptive_and_non_preem.Engine.State.{
  run, idle, cs, Core, SimOptions, Engine, view_of, blocked_less, append, add_time,
}

-- `ph[k]` of a process.
abbrev pub phase_len : Workload → ℕ → ℕ → ℕ
phase_len w p k = pos_part (get_or (workload_phases w (proc_at w.items p)) k (pos 0))

-- Whether putting `p` on the core needs a context switch.
abbrev pub switching : Core → ℕ → Bool
switching core p = elim core.context [ none ↦ false | some q ↦ not (q == p) ]

module _ {D S : Type 0} (f : Float D) (P : Policy D S) (w : Workload) (opt : SimOptions D)
    (order : List ℕ) where
  -- `order[e->next].arrival <= now`, with the bound on `next`.
  unfoldable pub arrival_due : Engine D S → Bool
  arrival_due e =
      ltb e.next (length w.items) && leb (arrival_of w.items (get_or order e.next 0)) e.now

  -- One admission.
  unfoldable pub admit_one : Engine D S → Engine D S
  admit_one e = record e {
    state = P.on_arrival (view_of w opt e) e.state (get_or order e.next 0);
    next = e.next + 1;
  }

  unfoldable pub admit_loop : ℕ → Engine D S → Bool → Engine D S × Bool
  admit_loop zero e any = (e, any)
  admit_loop (suc fuel) e any =
      let rest = admit_loop fuel (admit_one e) true in if arrival_due e then rest else (e, any)

  -- At most all processes arrive.
  unfoldable pub admit_arrivals : Engine D S → Engine D S × Bool
  unfolding admit_loop arrival_due admit_one
  admit_arrivals e = admit_loop (length w.items) e false

  unfoldable pub wake_due : Engine D S → Bool
  wake_due e = not (heap_empty e.blocked) && leb (e.wake (at e.blocked 0)) e.now

  -- One wake-up.
  unfoldable pub wake_one : Engine D S → Engine D S
  wake_one e = elim (heap_pop (blocked_less w opt e) e.blocked) [
    | none ↦ e
    | some (p, rest) ↦ record e { state = wake P (view_of w opt e) e.state p; blocked = rest }
  ]

  unfoldable pub wake_loop : ℕ → Engine D S → Bool → Engine D S × Bool
  wake_loop zero e any = (e, any)
  wake_loop (suc fuel) e any =
      let rest = wake_loop fuel (wake_one e) true in if wake_due e then rest else (e, any)

  unfoldable pub wake_blocked : Engine D S → Engine D S × Bool
  unfolding wake_loop wake_due wake_one
  wake_blocked e = wake_loop (length e.blocked) e false

  -- The new EWMA prediction of `p`.
  unfoldable pub predict_next : Engine D S → ℕ → Engine D S
  predict_next e p = elim e.predicted [
    | none ↦ e
    | some tau ↦ record e {
      predicted = some (
          update tau p (
            f.add (f.mul opt.alpha (f.of_i64 (e.burst_len p)))
              (f.mul (f.sub (f.of_i64 1) opt.alpha) (tau p))));
    }
  ]

  -- The last CPU burst of `p` has ended.
  unfoldable pub complete : Engine D S → ℕ → ℕ → Engine D S
  complete e p ran =
      let e' = record e {
        completion = update e.completion p (some e.now);
        completed = e.completed + 1;
      } in
      record e' { state = hook P P.on_complete (view_of w opt e') e'.state p ran }

  -- `p` starts its next I/O phase.
  unfoldable pub block : Engine D S → ℕ → ℕ → Engine D S
  block e p ran =
      let k = e.phase p in
      let (due, e1) = add_time e e.now (phase_len w p (k + 1)) in
      let e2 = record e1 {
        wake = update e1.wake p due;
        phase = update e1.phase p (k + 2);
        burst_len = update e1.burst_len p (phase_len w p (k + 2));
        remaining = update e1.remaining p (phase_len w p (k + 2));
      } in
      let e3 = record e2 { blocked = heap_push (blocked_less w opt e2) e2.blocked p } in
      record e3 { state = hook P P.on_block (view_of w opt e3) e3.state p ran }

  unfoldable pub burst_done : Engine D S → ℕ → ℕ → Engine D S
  unfolding predict_next complete block
  burst_done e p ran =
      let e' = predict_next e p in
      if e.phase p + 1 == (proc_at w.items p).phase_count then complete e' p ran else block e' p ran

  -- The core gives up its process, whose slice has run up to now.
  unfoldable pub release : Engine D S → ℕ → ℕ → Engine D S
  release e c p =
      let core = e.cores c in
      let ran = e.now - core.run_start in
      let e1 =
        append w opt e c
          (record { start = core.run_start; end = e.now; proc = some p; kind = run }) in
      record e1 {
        remaining = update e1.remaining p (e1.remaining p - ran);
        cores = update e1.cores c (record core { proc = none; free_since = e1.now });
      }

  -- True if the process went back to the ready set. A core without a process is never asked.
  unfoldable pub end_run : Engine D S → ℕ → Engine D S × Bool
  unfolding burst_done release
  end_run e c = elim (e.cores c).proc [
    | none ↦ (e, false)
    | some p ↦
        let ran = e.now - (e.cores c).run_start in
        let e' = release e c p in
        if e'.remaining p == 0
        then (burst_done e' p ran, false)
        else (record e' { state = hook P P.on_preempt (view_of w opt e') e'.state p ran }, true)
  ]

  -- The slice of `p` starts.
  unfoldable pub start_run : Engine D S → ℕ → ℕ → Engine D S
  start_run e c p =
      let core = e.cores c in
      let started = update e.start p (elim (e.start p) [ none ↦ some e.now | some t ↦ some t ]) in
      let len = if ltb core.length (e.remaining p) then core.length else e.remaining p in
      let (run_end, e1) = add_time (record e { start = started }) e.now len in
      record e1 {
        cores = update e1.cores c (record core {
          in_cs = false;
          run_start = e1.now;
          run_end = run_end;
          busy_until = if ltb core.deadline run_end then core.deadline else run_end;
        });
      }

  -- A core without a process is never asked.
  unfoldable pub begin_run : Engine D S → ℕ → Engine D S
  begin_run e c = elim (e.cores c).proc [ none ↦ e | some p ↦ start_run e c p ]

  -- The core takes the process of the slice.
  unfoldable pub occupy : Engine D S → ℕ → Slice → Engine D S
  occupy e c s =
      let core = e.cores c in
      let e1 =
        append w opt e c
          (record { start = core.free_since; end = e.now; proc = none; kind = idle }) in
      record e1 {
        cores = update e1.cores c (record core {
          proc = some s.proc;
          length = s.length;
          deadline = s.deadline;
          recheck = false;
          context = some s.proc;
        });
        switches = if switching core s.proc then e1.switches + 1 else e1.switches;
      }

  -- The switch into `p` begins.
  unfoldable pub begin_switch : Engine D S → ℕ → ℕ → Engine D S
  begin_switch e c p =
      let cost = pos_part opt.cs_cost in
      let core = e.cores c in
      let (until, e1) = add_time e e.now cost in
      let e2 = record e1 {
        cores = update e1.cores c (record core { in_cs = true; busy_until = until });
      } in
      let e3 =
        append w opt e2 c (record { start = e2.now; end = until; proc = some p; kind = cs }) in
      record e3 { cs_time = e3.cs_time + cost }

  unfoldable pub dispatch_one : Engine D S → ℕ → Slice → Engine D S
  unfolding occupy begin_switch begin_run
  dispatch_one e c s =
      let e' = occupy e c s in
      if switching (e.cores c) s.proc && ltb 0 (pos_part opt.cs_cost)
      then begin_switch e' c s.proc
      else begin_run e' c
