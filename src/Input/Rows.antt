-- ===== src/Input/Rows.antt =====
-- src/io/input.c: a row of decimal numbers is read as the process that it shows.
use preemptive_and_non_preem.Base.{
  ℕ, ◌≡◌, refl, Bool, true, false, some, List, [], ◌∷◌, ◌==◌, if◌then◌else◌, ◌∙◌, drop,
}
use preemptive_and_non_preem.Base.Int.{ℤ, pos, IsI64}
use preemptive_and_non_preem.Core.{Process, Workload, ok, process_make}
use preemptive_and_non_preem.Workload.{process_validate, workload_push}
use preemptive_and_non_preem.Input.Text.{Text}
use preemptive_and_non_preem.Input.Decimal.{show_ℤ, show_ℤ-busy, parse_i64-show_ℤ}
use preemptive_and_non_preem.Input.Csv.{
  Row, row_field, row_fields, push_row, parse_row, column_at, col_burst,
}

-- A field of a column of integers.
row_field-show_ℤ :
    (c : ℕ) (x : ℤ) (row : Row)
    → (column_at c).is_phases ≡ false
    → IsI64 x
    → row_field c (show_ℤ x) row
      ≡ some (record row {
        process = (column_at c).store row.process x;
        have_burst = if c == col_burst then true else row.have_burst;
      })
unfolding row_field
row_field-show_ℤ c x row ints fits = rw (show_ℤ-busy x, ints, parse_i64-show_ℤ x fits) refl

row_fields-next :
    (c : ℕ) (field : Text) (cols : List ℕ) (fields : List Text) (row row' : Row)
    → row_field c field row ≡ some row'
    → row_fields (c ∷ cols) (field ∷ fields) row ≡ row_fields cols fields row'
unfolding row_fields
row_fields-next c field cols fields row row' h = rw (h, row_fields) refl

-- The integers of a process that a row can give, in the order of the columns.
abbrev pub shown_row : Process → List Text
shown_row p =
    show_ℤ p.pid
    ∷ show_ℤ p.arrival
    ∷ show_ℤ p.burst
    ∷ show_ℤ p.priority
    ∷ show_ℤ p.tickets
    ∷ show_ℤ p.nice
    ∷ []

abbrev pub int_columns : List ℕ
int_columns = 0 ∷ 1 ∷ 2 ∷ 4 ∷ 5 ∷ 6 ∷ []

-- The process of a row, which has no phases of its own yet.
abbrev pub unplaced : Process → Process
unplaced p = record p { io = pos 0; phase_start = 0; phase_count = 0 }

module _ (p : Process) (pid : IsI64 p.pid) (arrival : IsI64 p.arrival) (burst : IsI64 p.burst)
    (priority : IsI64 p.priority) (tickets : IsI64 p.tickets) (nice : IsI64 p.nice) where
  row_fields-shown :
      row_fields int_columns
        (shown_row p)
        (record { process = process_make (pos 0) (pos 0) (pos 0); phases = []; have_burst = false })
      ≡ some (record { process = unplaced p; phases = []; have_burst = true })
  unfolding row_fields process_make
  row_fields-shown =
      row_fields-next 0 (show_ℤ p.pid) (1 ∷ 2 ∷ 4 ∷ 5 ∷ 6 ∷ []) (drop 1 (shown_row p)) _ _
        (row_field-show_ℤ 0 p.pid _ refl pid)
      ∙ row_fields-next 1 (show_ℤ p.arrival) (2 ∷ 4 ∷ 5 ∷ 6 ∷ []) (drop 2 (shown_row p)) _ _
          (row_field-show_ℤ 1 p.arrival _ refl arrival)
      ∙ row_fields-next 2 (show_ℤ p.burst) (4 ∷ 5 ∷ 6 ∷ []) (drop 3 (shown_row p)) _ _
          (row_field-show_ℤ 2 p.burst _ refl burst)
      ∙ row_fields-next 4 (show_ℤ p.priority) (5 ∷ 6 ∷ []) (drop 4 (shown_row p)) _ _
          (row_field-show_ℤ 4 p.priority _ refl priority)
      ∙ row_fields-next 5 (show_ℤ p.tickets) (6 ∷ []) (drop 5 (shown_row p)) _ _
          (row_field-show_ℤ 5 p.tickets _ refl tickets)
      ∙ row_fields-next 6 (show_ℤ p.nice) [] (drop 6 (shown_row p)) _ _
          (row_field-show_ℤ 6 p.nice _ refl nice)

  -- For a process whose numbers fit in 64 bits, any allocator and any workload, under a header with the
  -- columns pid, arrival, burst, priority, tickets and nice: the row of these numbers in decimal
  -- notation pushes that process if it is valid, and otherwise fails with the status of validation and
  -- keeps the workload.
  pub parse_row-shown :
      (alloc : ℕ → Bool) (w : Workload)
      → parse_row alloc int_columns (shown_row p) w ≡ elim (process_validate (unplaced p)) [
        | ok ↦ workload_push alloc w (unplaced p)
        | bad ↦ (bad, w)
      ]
  unfolding parse_row push_row
  parse_row-shown alloc w = rw row_fields-shown refl
