-- ===== src/Core.antt =====
-- include/sched/core.h: processes, workloads and status codes. Messages of `SchedError` are text
-- for the user and are not modelled; an allocation asks the caller's `alloc` whether it succeeds.
use preemptive_and_non_preem.Base.{ℕ, ◌-◌, ◌^◌, Bool, false, List, [], ◌∷◌, ◌||◌, ltb, take, drop}
use preemptive_and_non_preem.Base.Int.{ℤ, pos, negsuc}

pub record Process : Type 0 where
  pub pid : ℤ
  pub arrival : ℤ
  pub burst : ℤ
  pub io : ℤ
  pub priority : ℤ
  pub tickets : ℤ
  pub nice : ℤ
  pub phase_start : ℕ
  pub phase_count : ℕ

-- `len` and `phases_len` are the lengths of the lists.
pub record Workload : Type 0 where
  pub items : List Process
  pub cap : ℕ
  pub phases : List ℤ
  pub phases_cap : ℕ

pub data SchedStatus : Type 0 where
  ok e_input e_usage e_io e_nomem : SchedStatus

abbrev pub size_max : ℕ
size_max = 2 ^ 64 - 1

abbrev pub default_priority : ℤ
default_priority = pos 0

abbrev pub default_tickets : ℤ
default_tickets = pos 100

abbrev pub default_nice : ℤ
default_nice = pos 0

abbrev pub max_tickets : ℤ
max_tickets = pos (2 ^ 20)

abbrev pub min_nice : ℤ
min_nice = negsuc 19

abbrev pub max_nice : ℤ
max_nice = pos 19

unfoldable pub process_make : ℤ → ℤ → ℤ → Process
process_make pid arrival burst = record {
  pid = pid;
  arrival = arrival;
  burst = burst;
  io = pos 0;
  priority = default_priority;
  tickets = default_tickets;
  nice = default_nice;
  phase_start = 0;
  phase_count = 0;
}

unfoldable pub workload_init : Workload
workload_init = record { items = []; cap = 0; phases = []; phases_cap = 0 }

-- The phases of a process: its range of the pool.
abbrev pub workload_phases : Workload → Process → List ℤ
workload_phases w p = take p.phase_count (drop p.phase_start w.phases)

has_io_from : List Process → Bool
has_io_from [] = false
has_io_from (p ∷ ps) = ltb 1 p.phase_count || has_io_from ps

unfoldable pub workload_has_io : Workload → Bool
unfolding has_io_from
workload_has_io w = has_io_from w.items
