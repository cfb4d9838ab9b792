-- ===== src/Engine/Census/Instant.antt =====
-- One instant, one round of the event loop and the whole loop keep the census.
use preemptive_and_non_preem.Base.{
  ℕ, zero, suc, ◌+◌, ◌<◌, ◌≤◌, ◌≡◌, ◌≢◌, refl, ap, sym, Bool, false, not, ◌&&◌, ◌||◌, none, List,
  [], ◌∷◌, if_holds, leb, ◌==◌, arith, length,
}
use preemptive_and_non_preem.Base.Weight.{weigh, weigh-nil, total}
use preemptive_and_non_preem.Core.{Workload}
use preemptive_and_non_preem.Policy.{Float, Policy}
use preemptive_and_non_preem.Policy.Contract.{Contract}
use preemptive_and_non_preem.Engine.State.{Core, SimOptions, Engine, add_time, is_free}
use preemptive_and_non_preem.Engine.Step.{admit_arrivals, wake_blocked}
use preemptive_and_non_preem.Engine.Dispatch.{
  dispatch, any_cut, end_full, mark_recheck, finish_switch, finish_switches, interrupt,
  process_instant,
}
use preemptive_and_non_preem.Engine.Run.{initial, event_step}
use preemptive_and_non_preem.Engine.Census.{IsOrderOf, census, Balanced}
use preemptive_and_non_preem.Engine.Census.Keeps.{
  Balanced-SamePlaces, Balanced-core, add_time-SamePlaces,
}
use preemptive_and_non_preem.Engine.Census.Starts.{begin_run-Balanced}
use preemptive_and_non_preem.Engine.Census.Arrivals.{admit_arrivals-Balanced, wake_blocked-Balanced}
use preemptive_and_non_preem.Engine.Census.Ends.{end_run-Balanced}
use preemptive_and_non_preem.Engine.Census.Placing.{dispatch-Balanced}

module _ {D S : Type 0} (f : Float D) {P : Policy D S} (w : Workload) (opt : SimOptions D)
    (order : List ℕ) (K : Contract P w.items) (o : IsOrderOf (length w.items) order)
    (can : P.on_preempt ≢ none) where
  abbrev IsBalanced : Engine D S → Type 0
  IsBalanced e = Balanced K opt order [] e

  end_full-Balanced :
      (left c : ℕ) (e : Engine D S) (requeued : Bool)
      → c + left ≤ opt.cores
      → IsBalanced e
      → IsBalanced (end_full f P w opt order left c e requeued).0
  unfolding end_full
  end_full-Balanced zero c e requeued h b = b
  end_full-Balanced (suc left) c e requeued h b = end_full-Balanced left (c + 1) _ _ (omega arith) (
      if_holds IsBalanced
        (not (is_free (e.cores c)) && not (e.cores c).in_cs && (e.cores c).run_end == e.now)
        (λ _. end_run-Balanced f w opt order K o [] e c (omega arith) can b) (λ _. b))

  mark_recheck-Balanced :
      (k : ℕ) (e : Engine D S)
      → k ≤ opt.cores
      → IsBalanced e
      → IsBalanced (mark_recheck f P w opt order k e)
  unfolding mark_recheck
  mark_recheck-Balanced zero e h b = b
  mark_recheck-Balanced (suc k) e h b = mark_recheck-Balanced k _ (omega arith) (
      if_holds IsBalanced (not (is_free (e.cores k)) && (e.cores k).in_cs)
        (λ _. Balanced-core K opt order [] e k _ (omega arith) refl b) (λ _. b))

  finish_switch-Balanced :
      (e : Engine D S) (c : ℕ)
      → c < opt.cores
      → IsBalanced e
      → IsBalanced (finish_switch f P w opt order e c)
  unfolding finish_switch
  finish_switch-Balanced e c h b =
      let s = add_time-SamePlaces K opt order e e.now 1 in
      begin_run-Balanced f w opt order K [] _ c h (
        if_holds IsBalanced ((e.cores c).recheck || leb (e.cores c).deadline e.now)
          (λ _.
            Balanced-core K opt order [] (add_time e e.now 1).1 c _ h
              (ap (λ (a : ℕ → Core). (a c).proc) (sym s.cores))
              (Balanced-SamePlaces K opt order [] s b))
          (λ _. b))

  finish_switches-Balanced :
      (left c : ℕ) (e : Engine D S)
      → c + left ≤ opt.cores
      → IsBalanced e
      → IsBalanced (finish_switches f P w opt order left c e)
  unfolding finish_switches
  finish_switches-Balanced zero c e h b = b
  finish_switches-Balanced (suc left) c e h b =
      finish_switches-Balanced left (c + 1) _ (omega arith) (
        if_holds IsBalanced
          (not (is_free (e.cores c)) && (e.cores c).in_cs && (e.cores c).busy_until == e.now)
          (λ _. finish_switch-Balanced e c (omega arith) b) (λ _. b))

  interrupt-Balanced :
      (left c : ℕ) (redecide : Bool) (e : Engine D S)
      → c + left ≤ opt.cores
      → IsBalanced e
      → IsBalanced (interrupt f P w opt order left c redecide e)
  unfolding interrupt
  interrupt-Balanced zero c redecide e h b = b
  interrupt-Balanced (suc left) c redecide e h b =
      interrupt-Balanced left (c + 1) redecide _ (omega arith) (
        if_holds IsBalanced
          (not (is_free (e.cores c))
            && not (e.cores c).in_cs
            && not ((e.cores c).run_start == e.now)
            && (redecide || (e.cores c).busy_until == e.now))
          (λ _. end_run-Balanced f w opt order K o [] e c (omega arith) can b) (λ _. b))

  -- For a policy that keeps the contract, and an order of arrival that lists every process once, if
  -- it has an `on_preempt` hook: `process_instant` keeps the engine balanced with no process held.
  pub process_instant-Balanced :
      (e : Engine D S) → IsBalanced e → IsBalanced (process_instant f P w opt order e)
  unfolding process_instant
  process_instant-Balanced e b =
      let cut = any_cut f P w opt order e opt.cores in
      let r1 = admit_arrivals f P w opt order e in
      let r2 = wake_blocked f P w opt order r1.0 in
      let r3 = end_full f P w opt order opt.cores 0 r2.0 false in
      let b3 = end_full-Balanced opt.cores 0 r2.0 false (omega arith) (
        wake_blocked-Balanced f w opt order K o [] r1.0
          (admit_arrivals-Balanced f w opt order K o [] e b)) in
      interrupt-Balanced opt.cores 0 _ _ (omega arith) (
        finish_switches-Balanced opt.cores 0 _ (omega arith) (
          if_holds IsBalanced (P.preempt_on_ready && (r1.1 || r2.1 || r3.1 || cut))
            (λ _. mark_recheck-Balanced opt.cores r3.0 (omega arith) b3) (λ _. b3)))

  same_time : (e : Engine D S) (t : ℕ) → IsBalanced e → IsBalanced (record e { now = t })
  unfolding census
  same_time e t b = record {
    balance = b.balance;
    good = b.good;
    admitted = b.admitted;
    counted = b.counted;
  }

  -- For a policy that keeps the contract, and an order of arrival that lists every process once, if
  -- it has an `on_preempt` hook: one round of the event loop, a dispatch and the handling of the
  -- next instant, keeps the engine balanced with no process held.
  pub event_step-Balanced :
      (e : Engine D S) → IsBalanced e → IsBalanced (event_step f P w opt order e)
  unfolding event_step
  event_step-Balanced e b =
      let e' = dispatch f P w opt order e in
      process_instant-Balanced _ (same_time e' _ (dispatch-Balanced f w opt order K e b))

  weigh-nothing : (xs : List ℕ) → weigh (λ x. 0) xs ≡ 0
  unfolding weigh
  weigh-nothing [] = refl
  weigh-nothing (x ∷ xs) = omega (arith, weigh-nothing xs)

  total-zero : (g : ℕ → ℕ) (k : ℕ) → ((c : ℕ) → g c ≡ 0) → total g k ≡ 0
  unfolding total
  total-zero g zero h = refl
  total-zero g (suc k) h = omega (arith, total-zero g k h, h k)

  -- At the start every process has yet to arrive, if the policy starts with none.
  pub initial-Balanced :
      (s : S) → K.IsGood s → K.ready s ≡ [] → IsBalanced (initial f P w opt order s)
  unfolding initial census
  initial-Balanced s good nobody = record {
    balance = λ g. omega (
      arith,
      weigh-nothing order,
      total-zero (λ c. 0) opt.cores (λ c. refl),
      weigh-nil g,
      ap (weigh g) nobody,
    );
    good = good;
    admitted = omega arith;
    counted = sym (weigh-nothing order);
  }
