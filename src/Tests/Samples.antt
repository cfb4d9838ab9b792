-- ===== src/Tests/Samples.antt =====
-- Concrete inputs: processes, workloads, options, and numbers in the place of `double`.
use preemptive_and_non_preem.Base.{ℕ, ◌+◌, ◌-◌, ◌*◌, true, [], ◌∷◌, ltb, leb}
use preemptive_and_non_preem.Base.Int.{pos}
use preemptive_and_non_preem.Core.{Process, Workload}
use preemptive_and_non_preem.Policy.{Float, PolicyParams, policy_params_default}
use preemptive_and_non_preem.Engine.State.{oracle, SimOptions}

abbrev pub ticks : Float ℕ
ticks = record {
  of_i64 = λ n. n;
  add = λ a b. a + b;
  sub = λ a b. a - b;
  mul = λ a b. a * b;
  lt = ltb;
  le = leb;
  is_finite = λ a. true;
}

abbrev pub proc : ℕ → ℕ → ℕ → ℕ → Process
proc pid arrival burst at = record {
  pid = pos pid;
  arrival = pos arrival;
  burst = pos burst;
  io = pos 0;
  priority = pos 0;
  tickets = pos 100;
  nice = pos 0;
  phase_start = at;
  phase_count = 1;
}

-- A long process at 0, and two short ones at 1.
abbrev pub three : Workload
three = record {
  items = proc 1 0 5 0 ∷ proc 3 1 2 1 ∷ proc 2 1 3 2 ∷ [];
  cap = 16;
  phases = pos 5 ∷ pos 2 ∷ pos 3 ∷ [];
  phases_cap = 16;
}

abbrev pub one_core : SimOptions ℕ
one_core = record {
  cores = 1;
  cs_cost = pos 0;
  predict = oracle;
  alpha = 0;
  tau0 = 5;
  max_segments = 100;
}

unfoldable pub params : PolicyParams
unfolding policy_params_default
params = policy_params_default
