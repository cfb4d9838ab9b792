-- ===== src/Engine/Census/Ended.antt =====
-- Where the process of a slice that ends goes: back to the policy, to the blocked ones, or out.
use mathlib.Core.Path.{subst, ap₂}
use preemptive_and_non_preem.Base.{
  ℕ, ◌==◌, ◌+◌, ◌-◌, ◌<◌, ◌≤◌, ◌≡◌, ◌≢◌, refl, sym, ap, ◌∙◌, Bool, true, false, Option, none, some,
  List, ◌∷◌, Perm, if_holds, update, arith, length, ◌⊎◌, inl, inr,
}
use preemptive_and_non_preem.Base.Weight.{weigh-cons, indicator}
use preemptive_and_non_preem.Core.{Workload}
use preemptive_and_non_preem.Policy.{Float, Policy, proc_at}
use preemptive_and_non_preem.Policy.Contract.{Contract, hook}
use preemptive_and_non_preem.Util.Heap.{heap_push}
use preemptive_and_non_preem.Util.Heap.Content.{heap_push-perm}
use preemptive_and_non_preem.Engine.State.{
  Core, SimOptions, Segment, Engine, run, overflow, append, add_time, view_of, blocked_less,
}
use preemptive_and_non_preem.Engine.Step.{
  predict_next, complete, block, burst_done, release, end_run, phase_len,
}
use preemptive_and_non_preem.Engine.Census.{IsOrderOf, Balanced}
use preemptive_and_non_preem.Engine.Census.Moves.{wake_fits}
use preemptive_and_non_preem.Engine.Census.Ends.{release-Balanced, end_run-Balanced}
use preemptive_and_non_preem.Engine.Census.Alike.{
  Alike, Near, Near-Alike, add_time-Alike, add_time-sum, updated, append-Alike, predict_next-Alike,
}

module _ {D S : Type 0} (f : Float D) {P : Policy D S} (w : Workload) (opt : SimOptions D)
    (order : List ℕ) (K : Contract P w.items) where
  -- How `p`, which ran to its end in the engine `e`, ends there: it goes back to the policy.
  pub record Requeued (e : Engine D S) (p : ℕ) (r : Engine D S × Bool) : Type 0 where
    pub again : r.1 ≡ true
    pub ready : Perm (K.ready r.0.state) (p ∷ K.ready e.state)
    pub blocked : r.0.blocked ≡ e.blocked
    pub completion : r.0.completion ≡ e.completion

  -- It has completed.
  pub record Finished (e : Engine D S) (p : ℕ) (e' : Engine D S) : Type 0 where
    pub last : e.phase p + 1 ≡ (proc_at w.items p).phase_count
    pub ready : K.ready e'.state ≡ K.ready e.state
    pub blocked : e'.blocked ≡ e.blocked
    pub completion : e'.completion ≡ update e.completion p (some e.now)
    pub completed : e'.completed ≡ e.completed + 1

  -- It waits for the end of its next phase, and then has the phase after that to run.
  pub record Suspended (e : Engine D S) (p : ℕ) (e' : Engine D S) : Type 0 where
    pub more : e.phase p + 1 ≢ (proc_at w.items p).phase_count
    pub ready : K.ready e'.state ≡ K.ready e.state
    pub blocked : Perm e'.blocked (p ∷ e.blocked)
    pub completion : e'.completion ≡ e.completion
    pub wakes : (e'.wake p ≡ e.now + phase_len w p (e.phase p + 1)) ⊎ (e'.fail ≡ overflow)
    pub phase : e'.phase p ≡ e.phase p + 2
    pub remaining : e'.remaining p ≡ phase_len w p (e.phase p + 2)

  complete-Finished :
      (e x : Engine D S) (p ran : ℕ)
      → Near e x
      → K.IsGood e.state
      → e.phase p + 1 ≡ (proc_at w.items p).phase_count
      → Finished e p (complete f P w opt order x p ran)
  unfolding complete
  complete-Finished e x p ran same good last =
      let good' : K.IsGood x.state = subst K.IsGood (sym same.state) good in
      record {
        last = last;
        ready = (K.completes _ x.state p ran good').1 ∙ ap K.ready same.state;
        blocked = same.blocked;
        completion =
            ap₂ (λ (c : ℕ → Option ℕ) (t : ℕ). update c p (some t)) same.completion same.now;
        completed = omega (arith, same.completed);
      }

  block-Suspended :
      (e x : Engine D S) (p ran : ℕ)
      → Near e x
      → K.IsGood e.state
      → e.phase p + 1 ≢ (proc_at w.items p).phase_count
      → Suspended e p (block f P w opt order x p ran)
  unfolding block
  block-Suspended e x p ran same good more =
      let k = x.phase p in
      let here : k ≡ e.phase p = ap (λ (h : ℕ → ℕ). h p) same.phase in
      let len = phase_len w p (k + 1) in
      let (due, e1) : ℕ × Engine D S = add_time x x.now len in
      let kept : Alike x e1 = add_time-Alike x x.now len in
      let next_len = phase_len w p (k + 2) in
      let e2 : Engine D S = record e1 {
        wake = update e1.wake p due;
        phase = update e1.phase p (k + 2);
        burst_len = update e1.burst_len p next_len;
        remaining = update e1.remaining p next_len;
      } in
      let good' : K.IsGood e1.state = subst K.IsGood (sym (kept.state ∙ same.state)) good in
      let queued = heap_push-perm (blocked_less w opt e2) e2.blocked p in
      record {
        more = more;
        ready = (K.blocks _ e1.state p ran good').1 ∙ ap K.ready (kept.state ∙ same.state);
        blocked =
            subst (λ (b : List ℕ). Perm (heap_push (blocked_less w opt e2) e2.blocked p) (p ∷ b))
              (kept.blocked ∙ same.blocked) queued;
        completion = kept.completion ∙ same.completion;
        wakes = elim (add_time-sum x x.now len) [
          | inl sum ↦ inl (
              updated e1.wake p due
              ∙ sum
              ∙ ap₂ (λ (t j : ℕ). t + phase_len w p (j + 1)) same.now here)
          | inr failed ↦ inr failed
        ];
        phase = updated e1.phase p (k + 2) ∙ ap (λ (j : ℕ). j + 2) here;
        remaining = updated e1.remaining p next_len ∙ ap (λ (j : ℕ). phase_len w p (j + 2)) here;
      }

  -- What `release` does.
  record Freed (e : Engine D S) (c p : ℕ) (x : Engine D S) : Type 0 where
    near : Near e x
    remaining : x.remaining p ≡ e.remaining p - (e.now - (e.cores c).run_start)
    free : (x.cores c).proc ≡ none
    others : (d : ℕ) → (c == d) ≡ false → x.cores d ≡ e.cores d

  release-Freed : (e : Engine D S) (c p : ℕ) → Freed e c p (release f P w opt order e c p)
  unfolding release
  release-Freed e c p =
      let core = e.cores c in
      let seg : Segment = record {
        start = core.run_start;
        end = e.now;
        proc = some p;
        kind = run;
      } in
      let e1 : Engine D S = append w opt e c seg in
      let s : Alike e e1 = append-Alike f P w opt order e c seg in
      let freed : Core = record core { proc = none; free_since = e1.now } in
      let left = e.now - core.run_start in
      record {
        near = record {
          state = s.state;
          now = s.now;
          blocked = s.blocked;
          completion = s.completion;
          completed = s.completed;
          phase = s.phase;
        };
        remaining =
            updated e1.remaining p (e1.remaining p - left)
            ∙ ap (λ (h : ℕ → ℕ). h p - left) s.remaining;
        free = ap (λ (x : Core). x.proc) (updated e1.cores c freed);
        others = λ d apart. rw apart (ap (λ (h : ℕ → Core). h d) s.cores);
      }

  burst_done-cores :
      (x : Engine D S) (p ran : ℕ) → (burst_done f P w opt order x p ran).cores ≡ x.cores
  unfolding burst_done complete block
  burst_done-cores x p ran =
      let x1 = predict_next f P w opt order x p in
      let same = predict_next-Alike f P w opt order x p in
      if_holds (λ (r : Engine D S). r.cores ≡ x.cores)
        (x.phase p + 1 == (proc_at w.items p).phase_count) (λ _. same.cores)
        (λ _. (add_time-Alike x1 x1.now (phase_len w p (x1.phase p + 1))).cores ∙ same.cores)

  burst_done-outcome :
      (e x : Engine D S) (p ran : ℕ)
      → Near e x
      → K.IsGood e.state
      → Finished e p (burst_done f P w opt order x p ran)
        ⊎ Suspended e p (burst_done f P w opt order x p ran)
  unfolding burst_done
  burst_done-outcome e x p ran near good =
      let y = Near-Alike near (predict_next-Alike f P w opt order x p) in
      let here : x.phase p ≡ e.phase p = ap (λ (h : ℕ → ℕ). h p) near.phase in
      if_holds (λ (r : Engine D S). Finished e p r ⊎ Suspended e p r)
        (x.phase p + 1 == (proc_at w.items p).phase_count)
        (λ last. inl (complete-Finished e _ p ran y good (ground (arith, last, here))))
        (λ more. inr (block-Suspended e _ p ran y good (ground (arith, more, here))))

  -- After the end of the run of `p` on the core `c`: the core is free, the others are as they were, and
  -- `p` goes back to the policy if its burst has time left, and otherwise has completed or is blocked.
  pub record Ended (e : Engine D S) (c p : ℕ) (r : Engine D S × Bool) : Type 0 where
    pub free : (r.0.cores c).proc ≡ none
    pub others : (d : ℕ) → (c == d) ≡ false → r.0.cores d ≡ e.cores d
    pub outcome :
        ((e.now - (e.cores c).run_start < e.remaining p) × Requeued e p r)
        ⊎ ((e.remaining p ≤ e.now - (e.cores c).run_start)
            × (r.1 ≡ false)
            × (Finished e p r.0 ⊎ Suspended e p r.0))

  module _ (o : IsOrderOf (length w.items) order) (held : List ℕ) where
    preempt-Requeued :
        (e x : Engine D S) (p ran : ℕ)
        → Near e x
        → Balanced K opt order (p ∷ held) x
        → P.on_preempt ≢ none
        → Requeued e p
            (record x { state = hook P P.on_preempt (view_of w opt x) x.state p ran }, true)
    preempt-Requeued e x p ran near b can =
        let here : indicator p p ≡ 1 = ground arith in
        let (good, perm) =
          K.preempts (view_of w opt x) x.state p ran b.good
            (wake_fits K opt order p (p ∷ held) x o b
              (omega (arith, weigh-cons (indicator p) p held, here)))
            can in
        record {
          again = refl;
          ready =
              subst
                (λ (s : S).
                  Perm (K.ready (hook P P.on_preempt (view_of w opt x) x.state p ran))
                    (p ∷ K.ready s))
                near.state perm;
          blocked = near.blocked;
          completion = near.completion;
        }

    -- For a policy that keeps the contract and has an `on_preempt` hook, and an order of arrival that
    -- lists every process once: on a core with a process, `end_run` keeps the engine balanced, frees
    -- that core alone, and sends the process to the policy where its burst has time left. Otherwise,
    -- after its last phase, the process completes now and counts as completed; before it, it is
    -- blocked until its I/O phase is over, unless that overflows, with the next burst to run.
    pub end_run-Ended :
        (e : Engine D S) (c p : ℕ)
        → c < opt.cores
        → (e.cores c).proc ≡ some p
        → P.on_preempt ≢ none
        → Balanced K opt order held e
        → Balanced K opt order held (end_run f P w opt order e c).0
          × Ended e c p (end_run f P w opt order e c)
    unfolding end_run
    end_run-Ended e c p h here can b =
        let ran = e.now - (e.cores c).run_start in
        let x = release f P w opt order e c p in
        let freed = release-Freed e c p in
        let b' = release-Balanced f w opt order K o held e c p h here b in
        let moved = burst_done-cores x p ran in
        (
          end_run-Balanced f w opt order K o held e c h can b,
          simp (here, end_run)
              (if_holds (Ended e c p) (x.remaining p == 0)
                (λ over. record {
                  free = ap (λ (cs : ℕ → Core). (cs c).proc) moved ∙ freed.free;
                  others = λ d apart. ap (λ (cs : ℕ → Core). cs d) moved ∙ freed.others d apart;
                  outcome = inr (
                    ground (arith, over, freed.remaining),
                    refl,
                    burst_done-outcome e x p ran freed.near b.good,
                  );
                })
                (λ left. record {
                  free = freed.free;
                  others = freed.others;
                  outcome = inl (
                    ground (arith, left, freed.remaining),
                    preempt-Requeued e x p ran freed.near b' can,
                  );
                })),
        )
