-- ===== src/Policies/Prio/Runs.antt =====
-- src/policies/priority.c under src/engine/engine.c: runs with preemptive priority scheduling.
use preemptive_and_non_preem.Base.{ℕ, ◌≡◌, ◌≢◌, refl, none, some, Bool}
use preemptive_and_non_preem.Core.{Workload, ok}
use preemptive_and_non_preem.Policy.{Float, View, PolicyParams}
use preemptive_and_non_preem.Policies.Prio.{policy_prio_p, prio_p_create, create}
use preemptive_and_non_preem.Policies.Prio.Tree.{Prio}
use preemptive_and_non_preem.Policies.Contracts.Treaped.{prio_p-Contract}
use preemptive_and_non_preem.Workload.{workload_validate}
use preemptive_and_non_preem.Workload.Distinct.{workload_validate-HasDistinctPids}
use preemptive_and_non_preem.Engine.State.{SimOptions}
use preemptive_and_non_preem.Engine.Run.{rounds, order_of, first_view}
use preemptive_and_non_preem.Engine.Census.Order.{order_of-IsOrderOf}
use preemptive_and_non_preem.Engine.Census.Finish.{Decided, entered, rounds-Decided}

module _ {D : Type 0} (f : Float D) where
  prio_p-preempts : (policy_prio_p D).on_preempt ≢ none
  unfolding policy_prio_p
  prio_p-preempts h = cc

  prio_p-creates :
      (v : View D) (params : PolicyParams)
      → (s : Prio) × ((policy_prio_p D).create v params ≡ some s)
  unfolding policy_prio_p prio_p_create create
  prio_p-creates v params = (_, refl)

  -- On every workload that `workload_validate` accepts, preemptive priority scheduling creates its state,
  -- and after any number of rounds of the event loop each process is in exactly one place, and the test
  -- of the loop stops at a failure, stops where every process has completed with none left anywhere, and
  -- otherwise goes on with a process that has no completion.
  pub rounds-prio_p :
      (alloc : ℕ → Bool) (w : Workload) (params : PolicyParams) (opt : SimOptions D)
      (h : workload_validate alloc w ≡ ok)
      → (s : Prio) × ((policy_prio_p D).create
            (first_view f (policy_prio_p D) w opt (order_of w))
            params
          ≡ some s)
        × ((k : ℕ)
            → Decided f w opt
                (order_of w)
                (prio_p-Contract (workload_validate-HasDistinctPids alloc w h))
                (order_of-IsOrderOf w)
                (rounds f (policy_prio_p D) w opt (order_of w) k (
                  entered f w
                    (prio_p-Contract (workload_validate-HasDistinctPids alloc w h))
                    opt
                    s)))
  rounds-prio_p alloc w params opt h =
      let K = prio_p-Contract (workload_validate-HasDistinctPids alloc w h) in
      let (s, made) = prio_p-creates (first_view f (policy_prio_p D) w opt (order_of w)) params in
      (s, made, λ k. rounds-Decided f w K params opt s k prio_p-preempts made)
