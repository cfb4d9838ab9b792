-- ===== src/Policy.antt =====
-- include/sched/policy.h: the view that the engine lends to a policy, parameters, slices, and the
-- record of hooks. A validated workload has no negative time, pid or ticket count, so these are
-- read as natural numbers; a priority and a nice value stay signed.
pub mod Contract
use preemptive_and_non_preem.Base.{
  ℕ, ◌+◌, ◌-◌, ◌*◌, ◌^◌, ◌<◌, ◌≡◌, ◌≢◌, Bool, true, false, Option, none, some, List, ltb, ◌==◌,
  if◌then◌else◌, length, get_or,
}
use preemptive_and_non_preem.Base.Int.{ℤ, pos, pos_part, int64_max}
use preemptive_and_non_preem.Core.{Process}

-- The operations of C's `double` that the program uses, over a type of their own.
pub record Float (D : Type 0) : Type 0 where
  pub of_i64 : ℕ → D
  pub add : D → D → D
  pub sub : D → D → D
  pub mul : D → D → D
  pub lt : D → D → Bool
  pub le : D → D → Bool
  pub is_finite : D → Bool

pub record View (D : Type 0) : Type 0 where
  pub procs : List Process
  pub n : ℕ
  pub cores : ℕ
  pub cs_cost : ℕ
  pub now : ℕ
  pub remaining : ℕ → ℕ
  pub burst_len : ℕ → ℕ
  pub predicted : Option (ℕ → D)

pub record PolicyParams : Type 0 where
  pub quantum : ℤ
  pub aging : ℕ
  pub mlfq_levels : ℕ
  pub mlfq_quanta : ℕ → ℕ
  pub mlfq_allotment : ℕ → ℕ
  pub mlfq_boost : ℕ
  pub seed : ℕ
  pub cfs_latency : ℕ
  pub cfs_min_gran : ℕ

-- The level arrays of the C struct have 16 entries; `2 << l` is `2 * 2 ^ l`.
unfoldable pub policy_params_default : PolicyParams
policy_params_default = record {
  quantum = pos 2;
  aging = 0;
  mlfq_levels = 3;
  mlfq_quanta = λ l. 2 * 2 ^ l;
  mlfq_allotment = λ l. 2 * 2 ^ l;
  mlfq_boost = 0;
  seed = 1;
  cfs_latency = 24;
  cfs_min_gran = 3;
}

pub record Slice : Type 0 where
  pub proc : ℕ
  pub length : ℕ
  pub deadline : ℕ

abbrev pub no_deadline : ℕ
no_deadline = int64_max

-- A policy with private state `S`. The hooks that C allows to be NULL are options; `next_slice`
-- returns the slice, or `none` for false, with the new state.
pub record Policy (D S : Type 0) : Type 0 where
  pub preemptive : Bool
  pub preempt_on_ready : Bool
  pub uses_quantum : Bool
  pub uses_estimates : Bool
  pub work_conserving : Bool
  pub offline : Bool
  pub create : View D → PolicyParams → Option S
  pub on_arrival : View D → S → ℕ → S
  pub on_ready : Option (View D → S → ℕ → S)
  pub next_slice : View D → S → Option Slice × S
  pub on_preempt : Option (View D → S → ℕ → ℕ → S)
  pub on_block : Option (View D → S → ℕ → ℕ → S)
  pub on_complete : Option (View D → S → ℕ → ℕ → S)

abbrev no_process : Process
no_process = record {
  pid = pos 0;
  arrival = pos 0;
  burst = pos 0;
  io = pos 0;
  priority = pos 0;
  tickets = pos 0;
  nice = pos 0;
  phase_start = 0;
  phase_count = 0;
}

-- `procs[p]`
abbrev pub proc_at : List Process → ℕ → Process
proc_at procs p = get_or procs p no_process

abbrev pub arrival_of : List Process → ℕ → ℕ
arrival_of procs p = pos_part (proc_at procs p).arrival

abbrev pub pid_of : List Process → ℕ → ℕ
pid_of procs p = pos_part (proc_at procs p).pid

-- No two processes have the same pid.
abbrev pub HasDistinctPids : List Process → Type 0
HasDistinctPids procs =
    (x y : ℕ) → x < length procs → y < length procs → x ≢ y → pid_of procs x ≢ pid_of procs y

-- Ties are broken by (arrival, pid).
abbrev pub earlier : List Process → ℕ → ℕ → Bool
earlier procs a b =
    if arrival_of procs a == arrival_of procs b
    then ltb (pid_of procs a) (pid_of procs b)
    else ltb (arrival_of procs a) (arrival_of procs b)

-- The sign of a comparison.
pub data Sign : Type 0 where
  before same after : Sign

pub cmp_ℕ : ℕ → ℕ → Sign
cmp_ℕ a b = if ltb b a then after else if ltb a b then before else same

module _ {D : Type 0} (f : Float D) where
  pub cmp_float : D → D → Sign
  cmp_float a b = if f.lt b a then after else if f.lt a b then before else same

  unfoldable pub sched_cmp_expected_burst : View D → ℕ → ℕ → Sign
  unfolding cmp_ℕ cmp_float
  sched_cmp_expected_burst v a b = elim v.predicted [
    | none ↦ cmp_ℕ (v.burst_len a) (v.burst_len b)
    | some tau ↦ cmp_float (tau a) (tau b)
  ]

  -- The prediction less the ticks run, or 0 if that is negative.
  pub left_of_prediction : View D → (ℕ → D) → ℕ → D
  left_of_prediction v tau p =
      let left = f.sub (tau p) (f.of_i64 (v.burst_len p - v.remaining p)) in
      if f.lt left (f.of_i64 0) then f.of_i64 0 else left

  unfoldable pub sched_cmp_expected_remaining : View D → ℕ → ℕ → Sign
  unfolding cmp_ℕ cmp_float left_of_prediction
  sched_cmp_expected_remaining v a b = elim v.predicted [
    | none ↦ cmp_ℕ (v.remaining a) (v.remaining b)
    | some tau ↦ cmp_float (left_of_prediction v tau a) (left_of_prediction v tau b)
  ]
