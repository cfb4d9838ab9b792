-- ===== src/Engine/Dispatch.antt =====
-- Placing the policy's picks on free cores, handling one instant, and finding the next event.
use preemptive_and_non_preem.Base.{
  ℕ, zero, suc, ◌+◌, ◌-◌, Bool, true, false, not, ◌&&◌, ◌||◌, Option, none, some, List, [], ◌∷◌,
  ltb, leb, ◌==◌, if◌then◌else◌, length, get_or, update,
}
use preemptive_and_non_preem.Base.Int.{int64_max}
use preemptive_and_non_preem.Core.{Workload}
use preemptive_and_non_preem.Policy.{Float, Slice, Policy, arrival_of}
use preemptive_and_non_preem.Util.Heap.{heap_empty, at}
use preemptive_and_non_preem.Engine.State.{
  SimOptions, Engine, is_free, same_proc, view_of, add_time,
}
use preemptive_and_non_preem.Engine.Step.{
  admit_arrivals, wake_blocked, end_run, begin_run, dispatch_one,
}

-- How many of the first `k` cores are free.
unfoldable pub count_free : {D S : Type 0} → Engine D S → ℕ → ℕ
count_free e zero = 0
count_free e (suc k) = if is_free (e.cores k) then count_free e k + 1 else count_free e k

-- The first core at or after `c`, among `left`, that passes a test.
unfoldable pub find_core : (ℕ → Bool) → ℕ → ℕ → Option ℕ
find_core test zero c = none
find_core test (suc left) c =
    let rest = find_core test left (c + 1) in if test c then some c else rest

module _ {D S : Type 0} (f : Float D) (P : Policy D S) (w : Workload) (opt : SimOptions D)
    (order : List ℕ) where
  -- The picks, at most `k` of them, in the order in which the policy makes them.
  unfoldable pub collect : ℕ → Engine D S → List Slice × Engine D S
  collect zero e = ([], e)
  collect (suc k) e =
      let (answer, state) = P.next_slice (view_of w opt e) e.state in
      let (more, e') = collect k (record e { state = state }) in
      elim answer [ none ↦ ([], record e { state = state }) | some s ↦ (s ∷ more, e') ]

  -- A free core, not used yet, that ran the process last.
  abbrev pub was_here : Engine D S → (ℕ → Bool) → ℕ → ℕ → Bool
  was_here e used p c =
      not (used c) && is_free (e.cores c) && same_proc (e.cores c).context (some p)

  -- The first loop of `dispatch`: a process returns to its core. The picks that are left, the cores
  -- used and the engine.
  unfoldable pub place_home :
      List Slice → (ℕ → Bool) → Engine D S → List Slice × (ℕ → Bool) × Engine D S
  place_home [] used e = ([], used, e)
  place_home (s ∷ picks) used e = elim (find_core (was_here e used s.proc) opt.cores 0) [
    | none ↦ let (left, used', e') = place_home picks used e in (s ∷ left, used', e')
    | some c ↦ place_home picks (update used c true) (dispatch_one f P w opt order e c s)
  ]

  -- The second loop: the rest fill the free cores in order, from core `c` on.
  unfoldable pub place_rest : List Slice → (ℕ → Bool) → ℕ → Engine D S → Engine D S
  place_rest [] used c e = e
  place_rest (s ∷ picks) used c e =
      elim (find_core (λ d. not (used d || not (is_free (e.cores d)))) (opt.cores - c) c) [
        | none ↦ e
        | some d ↦ place_rest picks (update used d true) d (dispatch_one f P w opt order e d s)
      ]

  unfoldable pub dispatch : Engine D S → Engine D S
  unfolding count_free collect find_core place_home place_rest
  dispatch e =
      let (picks, e') = collect (count_free e opt.cores) e in
      if ltb 1 opt.cores
      then (let (left, used, e'') = place_home picks (λ c. false) e' in place_rest left used 0 e'')
      else place_rest picks (λ c. false) 0 e'

  -- A deadline on an occupied core is due now.
  unfoldable pub any_cut : Engine D S → ℕ → Bool
  any_cut e zero = false
  any_cut e (suc k) = any_cut e k || (not (is_free (e.cores k)) && (e.cores k).deadline == e.now)

  -- The slices that ran their full length, over `left` cores from `c` on.
  unfoldable pub end_full : ℕ → ℕ → Engine D S → Bool → Engine D S × Bool
  end_full zero c e requeued = (e, requeued)
  end_full (suc left) c e requeued =
      let core = e.cores c in
      let (e', again) = end_run f P w opt order e c in
      let full = not (is_free core) && not core.in_cs && core.run_end == e.now in
      end_full left (c + 1) (if full then e' else e) (if full then requeued || again else requeued)

  unfoldable pub mark_recheck : ℕ → Engine D S → Engine D S
  mark_recheck zero e = e
  mark_recheck (suc k) e =
      let core = e.cores k in
      mark_recheck k (
        if not (is_free core) && core.in_cs
        then record e { cores = update e.cores k (record core { recheck = true }) }
        else e)

  -- One finished switch: a pending reason to re-decide moves the deadline to the next tick.
  unfoldable pub finish_switch : Engine D S → ℕ → Engine D S
  finish_switch e c =
      let core = e.cores c in
      let (soon, e') = add_time e e.now 1 in
      begin_run f P w opt order
        (if core.recheck || leb core.deadline e.now
          then record e' { cores = update e'.cores c (record core { deadline = soon }) }
          else e)
        c

  unfoldable pub finish_switches : ℕ → ℕ → Engine D S → Engine D S
  finish_switches zero c e = e
  finish_switches (suc left) c e =
      let core = e.cores c in
      let due = not (is_free core) && core.in_cs && core.busy_until == e.now in
      finish_switches left (c + 1) (if due then finish_switch e c else e)

  unfoldable pub interrupt : ℕ → ℕ → Bool → Engine D S → Engine D S
  interrupt zero c redecide e = e
  interrupt (suc left) c redecide e =
      let core = e.cores c in
      let running = not (is_free core) && not core.in_cs && not (core.run_start == e.now) in
      let stop = running && (redecide || core.busy_until == e.now) in
      interrupt left (c + 1) redecide (if stop then (end_run f P w opt order e c).0 else e)

  unfoldable pub process_instant : Engine D S → Engine D S
  unfolding any_cut end_full mark_recheck finish_switch finish_switches interrupt
  process_instant e =
      let cut = any_cut e opt.cores in
      let (e1, arrived) = admit_arrivals f P w opt order e in
      let (e2, woken) = wake_blocked f P w opt order e1 in
      let (e3, requeued) = end_full opt.cores 0 e2 false in
      let redecide = P.preempt_on_ready && (arrived || woken || requeued || cut) in
      let e4 = if redecide then mark_recheck opt.cores e3 else e3 in
      interrupt opt.cores 0 redecide (finish_switches opt.cores 0 e4)

  -- The earliest time at which one of the first `k` cores has an event, below `t`.
  unfoldable pub core_event : Engine D S → ℕ → ℕ → ℕ
  core_event e zero t = t
  core_event e (suc k) t =
      let core = e.cores k in
      let t' = core_event e k t in
      let t1 = if ltb core.busy_until t' then core.busy_until else t' in
      let t2 = if ltb e.now core.deadline && ltb core.deadline t1 then core.deadline else t1 in
      if is_free core then t' else t2

  unfoldable pub next_event : Engine D S → ℕ
  unfolding core_event
  next_event e =
      let t0 =
        if ltb e.next (length w.items)
        then arrival_of w.items (get_or order e.next 0)
        else int64_max in
      let due = e.wake (at e.blocked 0) in
      let t1 = if not (heap_empty e.blocked) && ltb due t0 then due else t0 in
      core_event e opt.cores t1
