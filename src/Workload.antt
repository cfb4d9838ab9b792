-- ===== src/Workload.antt =====
-- src/engine/workload.c: building and validating a workload.
pub mod Phases
pub mod Distinct
use preemptive_and_non_preem.Base.{
  ℕ, zero, suc, ◌+◌, ◌-◌, ◌*◌, ◌/◌, ◌%◌, ◌^◌, Bool, true, false, not, ◌&&◌, ◌||◌, Option, none,
  some, List, [], ◌∷◌, ◌++◌, ltb, leb, ◌==◌, if◌then◌else◌, length, take, drop,
}
use preemptive_and_non_preem.Base.Int.{ℤ, pos, negsuc, ◌+ℤ◌, ltb_ℤ, leb_ℤ, eqb_ℤ}
use preemptive_and_non_preem.Base.Sort.{qsort}
use preemptive_and_non_preem.Util.Checked.{ck_add_i64}
use preemptive_and_non_preem.Core.{
  Process, Workload, SchedStatus, ok, e_input, e_nomem, size_max, max_tickets, min_nice, max_nice,
  workload_phases,
}

-- The loop of `grow`: doubles the capacity until it suffices. `none` is an overflow.
pub double_until : ℕ → ℕ → ℕ → Option ℕ
double_until zero ncap need = none
double_until (suc fuel) ncap need =
    let rest = double_until fuel (ncap * 2) need in
    let grown = if ltb (size_max / 2) ncap then none else rest in
    if ltb ncap need then grown else some ncap

-- The new capacity, or `none`. 65 rounds are enough: a capacity of at least 1 passes `SIZE_MAX / 2`
-- after 63 doublings.
unfoldable pub grow : (ℕ → Bool) → ℕ → ℕ → ℕ → Option ℕ
unfolding double_until
grow alloc cap need size =
    let grown : Option ℕ = elim (double_until 65 (if cap == 0 then 16 else cap) need) [
      | none ↦ none
      | some ncap ↦
          if ltb (size_max / size) ncap
          then none
          else if alloc (ncap * size)
          then some ncap
          else none
    ] in
    if leb need cap then some cap else grown

-- The two sums that the loop of `workload_push_phases` makes, CPU first; `none` is an error.
unfoldable pub push_sums : Bool → ℤ → ℤ → List ℤ → Option (ℤ × ℤ)
push_sums is_io cpu io [] = some (cpu, io)
push_sums is_io cpu io (x ∷ xs) =
    let rest : Option (ℤ × ℤ) = elim (ck_add_i64 (if is_io then io else cpu) x) [
      | none ↦ none
      | some sum ↦ if is_io then push_sums false cpu sum xs else push_sums true sum io xs
    ] in
    if leb_ℤ x (pos 0) then none else rest

-- `sizeof(int64_t)` and `sizeof(Process)`.
abbrev pub size_i64 : ℕ
size_i64 = 8

abbrev pub size_process : ℕ
size_process = 72

-- The growing and copying half of `workload_push_phases`. A grown phase pool stays grown when the
-- second allocation fails.
unfoldable pub append_process :
    (ℕ → Bool) → Workload → Process → List ℤ → ℤ → ℤ → SchedStatus × Workload
unfolding grow
append_process alloc w p phases cpu io =
    let count = length phases in
    let start = length w.phases in
    let p' = record p { burst = cpu; io = io; phase_start = start; phase_count = count } in
    if ltb (size_max - count) start || length w.items == size_max
    then (e_nomem, w)
    else elim (grow alloc w.phases_cap (start + count) size_i64) [
      | none ↦ (e_nomem, w)
      | some phases_cap ↦ elim (grow alloc w.cap (length w.items + 1) size_process) [
        | none ↦ (e_nomem, record w { phases_cap = phases_cap })
        | some cap ↦ (
          ok,
          record {
            items = w.items ++ p' ∷ [];
            cap = cap;
            phases = w.phases ++ phases;
            phases_cap = phases_cap;
          },
        )
      ]
    ]

unfoldable pub workload_push_phases :
    (ℕ → Bool) → Workload → Process → List ℤ → SchedStatus × Workload
unfolding append_process push_sums
workload_push_phases alloc w p phases =
    if length phases == 0 || length phases % 2 == 0
    then (e_input, w)
    else elim (push_sums false (pos 0) (pos 0) phases) [
      | none ↦ (e_input, w)
      | some (cpu, io) ↦ append_process alloc w p phases cpu io
    ]

unfoldable pub workload_push : (ℕ → Bool) → Workload → Process → SchedStatus × Workload
unfolding workload_push_phases
workload_push alloc w p = workload_push_phases alloc w p (p.burst ∷ [])

unfoldable pub process_validate : Process → SchedStatus
process_validate p =
    if ltb_ℤ p.pid (pos 0)
    then e_input
    else if ltb_ℤ p.arrival (pos 0)
    then e_input
    else if leb_ℤ p.burst (pos 0)
    then e_input
    else if ltb_ℤ p.tickets (pos 1) || ltb_ℤ max_tickets p.tickets
    then e_input
    else if ltb_ℤ p.nice min_nice || ltb_ℤ max_nice p.nice
    then e_input
    else ok

-- The sums that the inner loop of `workload_validate` makes: CPU, I/O and the total so far.
unfoldable pub phase_sums : Bool → ℤ → ℤ → ℤ → List ℤ → Option (ℤ × ℤ × ℤ)
phase_sums is_io cpu io total [] = some (cpu, io, total)
phase_sums is_io cpu io total (x ∷ xs) =
    let rest : Option (ℤ × ℤ × ℤ) = elim (ck_add_i64 (if is_io then io else cpu) x) [
      | none ↦ none
      | some sum ↦ elim (ck_add_i64 total x) [
        | none ↦ none
        | some total' ↦
            if is_io then phase_sums false cpu sum total' xs else phase_sums true sum io total' xs
      ]
    ] in
    if leb_ℤ x (pos 0) then none else rest

-- One round of the outer loop: the latest arrival and the total, or `none`.
unfoldable pub validate_one : Workload → Process → ℤ → ℤ → Option (ℤ × ℤ)
unfolding process_validate phase_sums
validate_one w p max_arrival total = elim (process_validate p) [
  | ok ↦ elim (phase_sums false (pos 0) (pos 0) total (workload_phases w p)) [
    | none ↦ none
    | some (cpu, io, total') ↦
        if p.phase_count % 2 == 0 || not (eqb_ℤ cpu p.burst) || not (eqb_ℤ io p.io)
        then none
        else some (if ltb_ℤ max_arrival p.arrival then p.arrival else max_arrival, total')
  ]
  | _ ↦ none
]

unfoldable pub validate_all : Workload → List Process → ℤ → ℤ → Option (ℤ × ℤ)
unfolding validate_one
validate_all w [] max_arrival total = some (max_arrival, total)
validate_all w (p ∷ ps) max_arrival total = elim (validate_one w p max_arrival total) [
  | none ↦ none
  | some (max_arrival', total') ↦ validate_all w ps max_arrival' total'
]

pub pids_of : List Process → List ℤ
pids_of [] = []
pids_of (p ∷ ps) = p.pid ∷ pids_of ps

-- Whether two neighbours are equal.
unfoldable pub has_repeat : List ℤ → Bool
has_repeat [] = false
has_repeat (x ∷ []) = false
has_repeat (x ∷ y ∷ ys) = eqb_ℤ y x || has_repeat (y ∷ ys)

unfoldable pub workload_validate : (ℕ → Bool) → Workload → SchedStatus
unfolding validate_all pids_of has_repeat
workload_validate alloc w =
    if length w.items == 0 then e_input else elim (validate_all w w.items (pos 0) (pos 0)) [
      | none ↦ e_input
      | some (max_arrival, total) ↦ elim (ck_add_i64 max_arrival total) [
        | none ↦ e_input
        | some horizon ↦
            if not (alloc (length w.items * size_i64))
            then e_nomem
            else if has_repeat (qsort leb_ℤ (pids_of w.items))
            then e_input
            else ok
      ]
    ]

-- The loop of `workload_horizon`, which adds without a check.
pub horizon_from : ℤ → ℤ → List Process → ℤ
horizon_from max_arrival total [] = max_arrival +ℤ total
horizon_from max_arrival total (p ∷ ps) =
    horizon_from (if ltb_ℤ max_arrival p.arrival then p.arrival else max_arrival)
      (total +ℤ (p.burst +ℤ p.io)) ps

unfoldable pub workload_horizon : Workload → ℤ
unfolding horizon_from
workload_horizon w = horizon_from (pos 0) (pos 0) w.items
