-- ===== src/Engine/Census/Arrivals.antt =====
-- Arrivals and wake-ups keep the census.
use preemptive_and_non_preem.Base.{
  ℕ, zero, suc, ◌+◌, ◌<◌, ◌≡◌, Bool, true, false, List, if_holds, arith, get_or, length,
}
use mathlib.Core.List.Perm
use preemptive_and_non_preem.Base.Weight.{weigh-perm, weigh-cons, indicator}
use preemptive_and_non_preem.Core.{Workload}
use preemptive_and_non_preem.Policy.{Float, Policy}
use preemptive_and_non_preem.Policy.Contract.{Contract, wake}
use preemptive_and_non_preem.Util.Heap.{heap_empty}
use preemptive_and_non_preem.Util.Heap.Content.{heap_pop-perm}
use preemptive_and_non_preem.Engine.State.{SimOptions, Engine, view_of, blocked_less}
use preemptive_and_non_preem.Engine.Step.{
  arrival_due, admit_one, admit_loop, admit_arrivals, wake_due, wake_one, wake_loop, wake_blocked,
}
use preemptive_and_non_preem.Engine.Census.{IsOrderOf, Balanced}
use preemptive_and_non_preem.Engine.Census.Moves.{
  admit_fits, wake_fits, census-ready, census-blocked, census-next,
}

module _ {D S : Type 0} (f : Float D) {P : Policy D S} (w : Workload) (opt : SimOptions D)
    (order : List ℕ) (K : Contract P w.items) (o : IsOrderOf (length w.items) order)
    (held : List ℕ) where
  abbrev IsBalanced : Engine D S → Type 0
  IsBalanced e = Balanced K opt order held e

  pub admit_one-Balanced :
      (e : Engine D S)
      → IsBalanced e
      → arrival_due f P w opt order e ≡ true
      → IsBalanced (admit_one f P w opt order e)
  unfolding arrival_due admit_one
  admit_one-Balanced e b due =
      let p = get_or order e.next 0 in
      let s = P.on_arrival (view_of w opt e) e.state p in
      let soon : e.next < length w.items = ground arith in
      let (good, perm) =
        K.arrives (view_of w opt e) e.state p b.good (admit_fits K opt order held e o b soon) in
      record {
        balance = λ g. omega (
          arith,
          census-ready K opt order g held (record e { next = e.next + 1 }) s p perm,
          census-next K opt order g held e (omega (arith, o.size)),
          b.balance g,
        );
        good = good;
        admitted = omega (arith, o.size);
        counted = b.counted;
      }

  admit_loop-Balanced :
      (fuel : ℕ) (e : Engine D S) (any : Bool)
      → IsBalanced e
      → IsBalanced (admit_loop f P w opt order fuel e any).0
  unfolding admit_loop
  admit_loop-Balanced zero e any b = b
  admit_loop-Balanced (suc fuel) e any b =
      if_holds (λ (r : Engine D S × Bool). IsBalanced r.0) (arrival_due f P w opt order e)
        (λ due.
          admit_loop-Balanced fuel (admit_one f P w opt order e) true (admit_one-Balanced e b due))
        (λ _. b)

  pub wake_one-Balanced :
      (e : Engine D S)
      → IsBalanced e
      → wake_due f P w opt order e ≡ true
      → IsBalanced (wake_one f P w opt order e)
  unfolding wake_due wake_one
  wake_one-Balanced e b due =
      let left : heap_empty e.blocked ≡ false = ground arith in
      let (r, popped, perm) = heap_pop-perm (blocked_less w opt e) e.blocked left in
      let here : indicator r.0 r.0 ≡ 1 = ground arith in
      let (good, ready) = K.wakes (view_of w opt e) e.state r.0 b.good (
        wake_fits K opt order r.0 held e o b (
          omega
            (arith, weigh-perm (indicator r.0) perm, weigh-cons (indicator r.0) r.0 r.1, here))) in
      let e' = record e { blocked = r.1 } in
      rw (popped, wake_one)
        (record {
          balance = λ g. omega (
            arith,
            census-ready K opt order g held e' (wake P (view_of w opt e) e.state r.0) r.0 ready,
            census-blocked K opt order g held e' e.blocked r.0 (Perm.symm perm),
            b.balance g,
          );
          good = good;
          admitted = b.admitted;
          counted = b.counted;
        })

  wake_loop-Balanced :
      (fuel : ℕ) (e : Engine D S) (any : Bool)
      → IsBalanced e
      → IsBalanced (wake_loop f P w opt order fuel e any).0
  unfolding wake_loop
  wake_loop-Balanced zero e any b = b
  wake_loop-Balanced (suc fuel) e any b =
      if_holds (λ (r : Engine D S × Bool). IsBalanced r.0) (wake_due f P w opt order e)
        (λ due.
          wake_loop-Balanced fuel (wake_one f P w opt order e) true (wake_one-Balanced e b due))
        (λ _. b)

  -- For a policy that keeps the contract, and an order of arrival that lists every process once:
  -- `admit_arrivals` keeps the engine balanced.
  pub admit_arrivals-Balanced :
      (e : Engine D S) → IsBalanced e → IsBalanced (admit_arrivals f P w opt order e).0
  unfolding admit_arrivals
  admit_arrivals-Balanced e b = admit_loop-Balanced (length w.items) e false b

  -- For a policy that keeps the contract, and an order of arrival that lists every process once:
  -- `wake_blocked` keeps the engine balanced.
  pub wake_blocked-Balanced :
      (e : Engine D S) → IsBalanced e → IsBalanced (wake_blocked f P w opt order e).0
  unfolding wake_blocked
  wake_blocked-Balanced e b = wake_loop-Balanced (length e.blocked) e false b
