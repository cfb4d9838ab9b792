-- ===== src/Engine/Census.antt =====
-- Where the processes are: not yet arrived, ready at the policy, blocked on I/O, picked but not yet
-- placed, on a core, or completed. Each operation of the engine moves a process from one of these to
-- another, so the weight of all of them together never changes, whatever the weights are.
pub mod Moves
pub mod Keeps
pub mod Arrivals
pub mod Alike
pub mod Due
pub mod Ended
pub mod Ends
pub mod Starts
pub mod Openings
pub mod Placing
pub mod Instant
pub mod Order
pub mod Finish
use preemptive_and_non_preem.Base.{
  ℕ, zero, suc, ◌+◌, ◌≤◌, ◌<◌, ◌≡◌, Bool, true, false, Option, none, some, List, drop, length,
}
use preemptive_and_non_preem.Base.Weight.{weigh, count, marked, total}
use preemptive_and_non_preem.Core.{Process, Workload}
use preemptive_and_non_preem.Policy.{Policy}
use preemptive_and_non_preem.Policy.Contract.{Contract}
use preemptive_and_non_preem.Engine.State.{Core, SimOptions, Engine}

-- The weight of what sits on a core.
abbrev pub seat : (ℕ → ℕ) → Core → ℕ
seat g c = elim c.proc [ none ↦ 0 | some p ↦ g p ]

abbrev pub is_done : (ℕ → Option ℕ) → ℕ → Bool
is_done completion p = elim (completion p) [ none ↦ false | some t ↦ true ]

-- The order of arrival lists every process below `n` once, and no other.
pub record IsOrderOf (n : ℕ) (order : List ℕ) : Type 0 where
  pub size : length order ≡ n
  pub once : (p : ℕ) → count p order ≤ 1
  pub inside : (p : ℕ) → 0 < count p order → p < n
  pub every : (p : ℕ) → p < n → count p order ≡ 1

module _ {D S : Type 0} {P : Policy D S} {procs : List Process} (K : Contract P procs)
    (opt : SimOptions D) (order : List ℕ) where
  -- The weight of every place. `held` are the picks that no core has yet.
  unfoldable pub census : (ℕ → ℕ) → List ℕ → Engine D S → ℕ
  census g held e =
      weigh g (drop e.next order)
      + weigh g (K.ready e.state)
      + weigh g e.blocked
      + weigh g held
      + total (λ c. seat g (e.cores c)) opt.cores
      + weigh (marked (is_done e.completion) g) order

  -- Every process is in exactly one place, with as many times as the order of arrival lists it, and
  -- the policy is in a good state. `completed` counts the processes with a completion.
  pub record Balanced (held : List ℕ) (e : Engine D S) : Type 0 where
    pub balance : (g : ℕ → ℕ) → census g held e ≡ weigh g order
    pub good : K.IsGood e.state
    pub admitted : e.next ≤ length order
    pub counted : e.completed ≡ weigh (marked (is_done e.completion) (λ x. 1)) order
