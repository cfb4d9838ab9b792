-- ===== src/Cli/Loads.antt =====
-- src/cli/main.c: what `load_workload` promises to the engine.
use preemptive_and_non_preem.Base.{
  ℕ, ◌<◌, ◌≡◌, Bool, Option, some, List, [], ◌∷◌, length, arith, ◌==◌, step_passed,
}
use preemptive_and_non_preem.Base.Int.{ℤ, pos, IsI64}
use preemptive_and_non_preem.Core.{
  Process, Workload, SchedStatus, ok, e_input, e_usage, e_io, e_nomem,
}
use preemptive_and_non_preem.Policy.{HasDistinctPids}
use preemptive_and_non_preem.Workload.{
  process_validate, validate_one, validate_all, workload_validate, workload_horizon,
}
use preemptive_and_non_preem.Workload.Phases.{
  status_passed, unrejected, accepted, workload_validate-horizon,
}
use preemptive_and_non_preem.Workload.Distinct.{workload_validate-HasDistinctPids}
use preemptive_and_non_preem.Input.Text.{Text}
use preemptive_and_non_preem.Input.Accepted.{AllValid}
use preemptive_and_non_preem.Cli.{Stream, validated, load_workload}

validate_all-AllValid :
    (w : Workload) (ps : List Process) (m t : ℤ) (r : ℤ × ℤ)
    → validate_all w ps m t ≡ some r
    → AllValid ps
unfolding validate_all validate_one
validate_all-AllValid w [] m t r h = tt
validate_all-AllValid w (p ∷ ps) m t r h =
    let (q, e, h1) = step_passed (validate_one w p m t) _ r h in
    let (good, _) = status_passed (process_validate p) _ q e in
    (good, validate_all-AllValid w ps q.0 q.1 r h1)

-- What a run of the engine relies on.
pub record IsReady (w : Workload) : Type 0 where
  pub busy : 0 < length w.items
  pub valid : AllValid w.items
  pub apart : HasDistinctPids w.items
  pub horizon : (h : ℕ) × (workload_horizon w ≡ pos h) × IsI64 (pos h)

workload_validate-IsReady :
    (alloc : ℕ → Bool) (w : Workload) → workload_validate alloc w ≡ ok → IsReady w
unfolding workload_validate
workload_validate-IsReady alloc w h =
    let (busy, h1) = unrejected (length w.items == 0) _ h in
    let (r, e, _) = accepted (validate_all w w.items (pos 0) (pos 0)) _ h1 in
    record {
      busy = ground (arith, busy);
      valid = validate_all-AllValid w w.items (pos 0) (pos 0) r e;
      apart = workload_validate-HasDistinctPids alloc w h;
      horizon = workload_validate-horizon alloc w h;
    }

validated-IsReady :
    (alloc : ℕ → Bool) (r : SchedStatus × Workload)
    → (validated alloc r).0 ≡ ok
    → IsReady (validated alloc r).1
validated-IsReady alloc (ok, w) h = workload_validate-IsReady alloc w h
validated-IsReady alloc (e_input, w) h = cc
validated-IsReady alloc (e_usage, w) h = cc
validated-IsReady alloc (e_io, w) h = cc
validated-IsReady alloc (e_nomem, w) h = cc

-- For any allocator, file system and standard input, and either format: where `load_workload` returns
-- `ok`, the workload has a process, each process passes `process_validate`, no two have the same pid,
-- and the horizon fits in 64 bits.
pub load_workload-IsReady :
    (alloc : ℕ → Bool) (fopen : Text → Option Stream) (stdin : Stream) (input_path : Option Text)
    (w : Workload)
    → (load_workload alloc fopen stdin input_path w).0 ≡ ok
    → IsReady (load_workload alloc fopen stdin input_path w).1
unfolding load_workload
load_workload-IsReady alloc fopen stdin input_path w h = validated-IsReady alloc _ h
