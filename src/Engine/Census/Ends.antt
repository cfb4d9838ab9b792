-- ===== src/Engine/Census/Ends.antt =====
-- The ends of slices keep the census.
use preemptive_and_non_preem.Base.{
  ℕ, ◌==◌, ◌+◌, ◌-◌, ◌<◌, ◌≡◌, ◌≢◌, refl, Bool, none, some, List, ◌∷◌, if_holds, update, arith,
  length, inl, inr, Option-cases,
}
use preemptive_and_non_preem.Base.Weight.{weigh, weigh-cons, indicator}
use preemptive_and_non_preem.Core.{Workload}
use preemptive_and_non_preem.Policy.{Float, Policy, proc_at}
use preemptive_and_non_preem.Policy.Contract.{Contract, hook}
use preemptive_and_non_preem.Util.Heap.{heap_push}
use preemptive_and_non_preem.Util.Heap.Content.{heap_push-perm}
use preemptive_and_non_preem.Engine.State.{
  Core, SimOptions, Segment, Engine, run, append, add_time, view_of, blocked_less,
}
use preemptive_and_non_preem.Engine.Step.{
  predict_next, complete, block, burst_done, release, end_run, phase_len,
}
use preemptive_and_non_preem.Engine.Census.{seat, IsOrderOf, census, Balanced}
use preemptive_and_non_preem.Engine.Census.Moves.{
  wake_fits, in_flight, census-held, census-cores, census-ready, census-same, census-blocked,
  census-completion, counted-completion,
}
use preemptive_and_non_preem.Engine.Census.Keeps.{
  SamePlaces, census-SamePlaces, Balanced-SamePlaces, append-SamePlaces, predict_next-SamePlaces,
  add_time-SamePlaces,
}

module _ {D S : Type 0} (f : Float D) {P : Policy D S} (w : Workload) (opt : SimOptions D)
    (order : List ℕ) (K : Contract P w.items) (o : IsOrderOf (length w.items) order)
    (held : List ℕ) where
  abbrev IsBalanced : Engine D S → Type 0
  IsBalanced e = Balanced K opt order held e

  -- The process that leaves a core is in flight.
  pub release-Balanced :
      (e : Engine D S) (c p : ℕ)
      → c < opt.cores
      → (e.cores c).proc ≡ some p
      → IsBalanced e
      → Balanced K opt order (p ∷ held) (release f P w opt order e c p)
  unfolding release
  release-Balanced e c p h here b =
      let core = e.cores c in
      let seg : Segment = record {
        start = core.run_start;
        end = e.now;
        proc = some p;
        kind = run;
      } in
      let e1 : Engine D S = append w opt e c seg in
      let s : SamePlaces K opt order e e1 = append-SamePlaces K opt order w e c seg in
      let e2 : Engine D S = record e1 {
        remaining = update e1.remaining p (e1.remaining p - (e.now - core.run_start));
      } in
      let s2 : SamePlaces K opt order e e2 = record {
        state = s.state;
        next = s.next;
        blocked = s.blocked;
        cores = s.cores;
        completion = s.completion;
        completed = s.completed;
      } in
      let freed : Core = record core { proc = none; free_since = e1.now } in
      let e3 : Engine D S = record e2 { cores = update e2.cores c freed } in
      record {
        balance = λ g.
            let seated : seat g (e2.cores c) ≡ g p = rw s.cores (rw (here, seat) refl) in
            omega (
              arith,
              census-held K opt order g p held e3,
              census-cores K opt order g held e2 c freed h,
              seated,
              census-SamePlaces K opt order g held s2,
              b.balance g,
            );
        good = rw s.state b.good;
        admitted = rw s.next b.admitted;
        counted = rw (s.completed, s.completion) b.counted;
      }

  module _ (p : ℕ) (e : Engine D S) (b : Balanced K opt order (p ∷ held) e) where
    preempt-Balanced :
        (ran : ℕ)
        → P.on_preempt ≢ none
        → IsBalanced (record e { state = hook P P.on_preempt (view_of w opt e) e.state p ran })
    preempt-Balanced ran can =
        let s = hook P P.on_preempt (view_of w opt e) e.state p ran in
        let here : indicator p p ≡ 1 = ground arith in
        let (good, perm) =
          K.preempts (view_of w opt e) e.state p ran b.good
            (wake_fits K opt order p (p ∷ held) e o b
              (omega (arith, weigh-cons (indicator p) p held, here)))
            can in
        record {
          balance = λ g. omega (
            arith,
            census-ready K opt order g held e s p perm,
            census-held K opt order g p held e,
            b.balance g,
          );
          good = good;
          admitted = b.admitted;
          counted = b.counted;
        }

    complete-Balanced : (ran : ℕ) → IsBalanced (complete f P w opt order e p ran)
    unfolding complete census weigh
    complete-Balanced ran =
        let (one, fresh) = in_flight K opt order p held e o b in
        let e1 : Engine D S = record e { completion = update e.completion p (some e.now) } in
        let e2 : Engine D S = record e1 { completed = e.completed + 1 } in
        let (good, same) = K.completes (view_of w opt e2) e.state p ran b.good in
        record {
          balance = λ g. omega (
            arith,
            census-same K opt order g held e2
                (hook P P.on_complete (view_of w opt e2) e.state p ran) same,
            census-completion K opt order g held e p e.now fresh one,
            census-held K opt order g p held e,
            b.balance g,
          );
          good = good;
          admitted = b.admitted;
          counted = counted-completion K opt order e p e.now fresh one b.counted;
        }

    block-Balanced : (ran : ℕ) → IsBalanced (block f P w opt order e p ran)
    unfolding block
    block-Balanced ran =
        let k = e.phase p in
        let len = phase_len w p (k + 1) in
        let due = (add_time e e.now len).0 in
        let e1 : Engine D S = (add_time e e.now len).1 in
        let s = add_time-SamePlaces K opt order e e.now len in
        let next_len = phase_len w p (k + 2) in
        let e2 : Engine D S = record e1 {
          wake = update e1.wake p due;
          phase = update e1.phase p (k + 2);
          burst_len = update e1.burst_len p next_len;
          remaining = update e1.remaining p next_len;
        } in
        let s2 : SamePlaces K opt order e e2 = record {
          state = s.state;
          next = s.next;
          blocked = s.blocked;
          cores = s.cores;
          completion = s.completion;
          completed = s.completed;
        } in
        let queued = heap_push (blocked_less w opt e2) e2.blocked p in
        let perm = heap_push-perm (blocked_less w opt e2) e2.blocked p in
        let e3 : Engine D S = record e2 { blocked = queued } in
        let (good, same) = K.blocks (view_of w opt e3) e3.state p ran (rw s.state b.good) in
        record {
          balance = λ g. omega (
            arith,
            census-same K opt order g held e3 (hook P P.on_block (view_of w opt e3) e3.state p ran)
                same,
            census-blocked K opt order g held e2 queued p perm,
            census-SamePlaces K opt order g held s2,
            census-held K opt order g p held e,
            b.balance g,
          );
          good = good;
          admitted = rw s.next b.admitted;
          counted = rw (s.completed, s.completion) b.counted;
        }

  burst_done-Balanced :
      (p : ℕ) (e : Engine D S)
      → Balanced K opt order (p ∷ held) e
      → (ran : ℕ) → IsBalanced (burst_done f P w opt order e p ran)
  unfolding burst_done
  burst_done-Balanced p e b ran =
      let e' = predict_next f P w opt order e p in
      let b' =
        Balanced-SamePlaces K opt order (p ∷ held) (predict_next-SamePlaces K opt order f w e p)
          b in
      if_holds IsBalanced (e.phase p + 1 == (proc_at w.items p).phase_count)
        (λ _. complete-Balanced p e' b' ran) (λ _. block-Balanced p e' b' ran)

  -- For a policy that keeps the contract, and an order of arrival that lists every process once, if
  -- it has an `on_preempt` hook: `end_run` on a core below `cores` keeps the engine balanced,
  -- whether the core is free, or its process completes, blocks or goes back to the policy.
  pub end_run-Balanced :
      (e : Engine D S) (c : ℕ)
      → c < opt.cores
      → P.on_preempt ≢ none
      → IsBalanced e
      → IsBalanced (end_run f P w opt order e c).0
  unfolding end_run
  end_run-Balanced e c h can b = elim (Option-cases (e.cores c).proc) [
    | inl none_here ↦ simp (none_here, end_run) b
    | inr (p, here) ↦
        let ran = e.now - (e.cores c).run_start in
        let e' = release f P w opt order e c p in
        let b' = release-Balanced e c p h here b in
        simp (here, end_run)
          (if_holds (λ (r : Engine D S × Bool). IsBalanced r.0) (e'.remaining p == 0)
            (λ _. burst_done-Balanced p e' b' ran) (λ _. preempt-Balanced p e' b' ran can))
  ]
