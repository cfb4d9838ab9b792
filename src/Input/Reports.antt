-- ===== src/Input/Reports.antt =====
-- src/io/input.c: what `read_workload_csv` reports as success.
use mathlib.Core.Path.{subst}
use preemptive_and_non_preem.Base.{
  ℕ, ◌<◌, ◌≡◌, ◌≢◌, refl, Bool, true, false, not, ◌||◌, List, [], ◌∷◌, if_holds, Option_holds,
  arith, length, ◌==◌, contrary, ap,
}
use preemptive_and_non_preem.Core.{Workload, SchedStatus, ok, e_input, e_usage, e_io, e_nomem}
use preemptive_and_non_preem.Input.Text.{Text, c_string, trim}
use preemptive_and_non_preem.Input.Csv.{split_fields, parse_header, parse_row}
use preemptive_and_non_preem.Input.Files.{
  Outcome, go_on, stop, row_outcome, skip_bom, is_cut, is_ignored, has_header, csv_line, csv_lines,
  fgets_lines, read_workload_csv,
}
use preemptive_and_non_preem.Input.Accepted.{AllValid, outcome_holds, csv_lines-AllValid}

-- A line that ends the reading gives a status that is not `ok`.
abbrev EndsBadly : Outcome → Type 0
EndsBadly (go_on cols w) = Unit {0}
EndsBadly (stop st w) = st ≢ ok

record IsHonest (o : Outcome) : Type 0 where
  honest : EndsBadly o

is_bad : SchedStatus → Bool
is_bad ok = false
is_bad st = true

bad_status : (st : SchedStatus) → is_bad st ≡ true → st ≢ ok
unfolding is_bad
bad_status st h e = contrary h (ap is_bad e)

row_outcome-IsHonest : (cols : List ℕ) (r : SchedStatus × Workload) → IsHonest (row_outcome cols r)
unfolding is_bad
row_outcome-IsHonest cols (ok, w) = record { honest = tt }
row_outcome-IsHonest cols (e_input, w) = record { honest = bad_status e_input refl }
row_outcome-IsHonest cols (e_usage, w) = record { honest = bad_status e_usage refl }
row_outcome-IsHonest cols (e_io, w) = record { honest = bad_status e_io refl }
row_outcome-IsHonest cols (e_nomem, w) = record { honest = bad_status e_nomem refl }

csv_line-IsHonest :
    (alloc : ℕ → Bool) (first : Bool) (line : Text) (cols : List ℕ) (w : Workload)
    → IsHonest (csv_line alloc first line cols w)
unfolding csv_line is_bad
csv_line-IsHonest alloc first line cols w =
    let text = trim (skip_bom first (c_string line)) in
    let refused : IsHonest (stop e_input w) = record { honest = bad_status e_input refl } in
    if_holds IsHonest (is_cut (c_string line)) (λ _. refused)
      (λ _.
        if_holds IsHonest (is_ignored text) (λ _. record { honest = tt })
          (λ _. Option_holds IsHonest (split_fields text) refused (λ fields _.
            if_holds IsHonest (has_header cols)
              (λ _. row_outcome-IsHonest cols (parse_row alloc cols fields w))
              (λ _.
                Option_holds IsHonest (parse_header fields) refused
                  (λ cols' _. record { honest = tt })))))

-- What success says: no read error, and at least one process.
record IsReport (failed : Bool) (r : SchedStatus × Workload) : Type 0 where
  success : r.0 ≡ ok → (failed ≡ false) × (0 < length r.1.items)

refuses : (failed : Bool) (st : SchedStatus) (w : Workload) → st ≢ ok → IsReport failed (st, w)
refuses failed st w h = record { success = λ e. absurd (h e) }

csv_lines-IsReport :
    (alloc : ℕ → Bool) (failed first : Bool) (lines : List Text) (cols : List ℕ) (w : Workload)
    → IsReport failed (csv_lines alloc failed first lines cols w)
unfolding csv_lines is_bad
csv_lines-IsReport alloc failed first [] cols w =
    if_holds (IsReport failed) failed (λ _. refuses failed e_io w (bad_status e_io refl))
      (λ fine.
        if_holds (IsReport failed) (not (has_header cols) || length w.items == 0)
          (λ _. refuses failed e_input w (bad_status e_input refl))
          (λ full. record { success = λ _. (fine, ground (arith, full)) }))
csv_lines-IsReport alloc failed first (line ∷ lines) cols w =
    let honest = csv_line-IsHonest alloc first line cols w in
    outcome_holds (IsReport failed) (csv_line alloc first line cols w)
      (λ st w' e. refuses failed st w' (subst IsHonest e honest).honest)
      (λ cols' w' e. csv_lines-IsReport alloc failed false lines cols' w')

-- For any allocator and any text: where `read_workload_csv` returns `ok`, the stream has had no read
-- error, and the workload has a process.
pub read_workload_csv-ok :
    (alloc : ℕ → Bool) (input : Text) (failed : Bool) (w : Workload)
    → (read_workload_csv alloc input failed w).0 ≡ ok
    → (failed ≡ false) × (0 < length (read_workload_csv alloc input failed w).1.items)
unfolding read_workload_csv
read_workload_csv-ok alloc input failed w =
    (csv_lines-IsReport alloc failed true (fgets_lines input) [] w).success

-- For any allocator, any text and a workload whose processes are valid: whatever `read_workload_csv`
-- returns, every process of the workload that it leaves passes `process_validate`.
pub read_workload_csv-AllValid :
    (alloc : ℕ → Bool) (input : Text) (failed : Bool) (w : Workload)
    → AllValid w.items
    → AllValid (read_workload_csv alloc input failed w).1.items
unfolding read_workload_csv
read_workload_csv-AllValid alloc input failed w h =
    (csv_lines-AllValid alloc failed true (fgets_lines input) [] w h).items
