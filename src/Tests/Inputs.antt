-- ===== src/Tests/Inputs.antt =====
-- The parser at concrete texts.
use Prim.Native.Char.{code}
use Prim.Native.String.{String}
use preemptive_and_non_preem.Base.{
  ℕ, ◌+◌, ◌<◌, ◌≤◌, ◌≡◌, refl, Bool, true, false, none, some, List, [], ◌∷◌, arith, length, get_or,
}
use preemptive_and_non_preem.Base.Weight.{count}
use preemptive_and_non_preem.Base.Int.{pos, negsuc, IsI64, ◌+ℤ◌, ◌-ℤ◌, i64_min}
use preemptive_and_non_preem.Util.Checked.{ck_add_i64}
use preemptive_and_non_preem.Core.{
  Process, Workload, SchedStatus, ok, e_io, workload_init, process_make,
}
use preemptive_and_non_preem.Workload.{
  process_validate, workload_push, workload_push_phases, push_sums, append_process, grow,
}
use preemptive_and_non_preem.Input.Text.{
  Text, c_string, skip_spaces, scan_digits, strtoll, parse_i64, cut_spaces, trim, pieces,
}
use preemptive_and_non_preem.Input.Decimal.{show_ℤ, parse_i64-show_ℤ, parse_i64-refuses}
use preemptive_and_non_preem.Input.Csv.{
  split_fields, same_name, index_from, column_index, header_fields, misses_required, parse_header,
  parse_each, parse_phases, row_field, row_fields, any_not_positive, push_row, parse_row, col_burst,
  col_bursts,
}
use preemptive_and_non_preem.Input.Files.{
  lines_from, fgets_lines, csv_line, csv_lines, read_workload_csv,
}
use preemptive_and_non_preem.Input.Tokens.{
  take_token, next_token, read_int_token, read_process, read_processes, read_workload_interactive,
}
use preemptive_and_non_preem.Input.Header.{parse_header-Columns}
use preemptive_and_non_preem.Input.Rows.{shown_row, int_columns, unplaced, parse_row-shown}
use preemptive_and_non_preem.Input.Accepted.{AllValid}
use preemptive_and_non_preem.Input.Reports.{read_workload_csv-ok, read_workload_csv-AllValid}

abbrev pub text : String → Text
text String.[] = []
text (String.◌∷◌ c s) = code c ∷ text s

least_number : parse_i64 (text "-9223372036854775808") ≡ some i64_min
unfolding parse_i64 strtoll skip_spaces scan_digits
least_number = refl

no_number :
    (parse_i64 (text "9223372036854775808") ≡ none)
    × (parse_i64 (text "-") ≡ none)
    × (parse_i64 (text "12x") ≡ none)
    × (parse_i64 (text " 1") ≡ none)
unfolding parse_i64 strtoll skip_spaces scan_digits
no_number = (refl, refl, refl, refl)

-- A mark, a comment, a header in any case, a default, a list of phases, and no line feed at the end.
abbrev pub file : Text
file = 239 ∷ 187 ∷ 191 ∷ text "# two\nPID, arrival ,Bursts,nice\n1,0,3:2:4,\n\n 2,5,7,-3"

abbrev pub grants : ℕ → Bool
grants n = true

abbrev pub result : SchedStatus × Workload
result = read_workload_csv grants file false workload_init

file_read :
    (result.0 ≡ ok)
    × (result.1.phases ≡ pos 3 ∷ pos 2 ∷ pos 4 ∷ pos 7 ∷ [])
    × (length result.1.items ≡ 2)
unfolding read_workload_csv csv_lines csv_line fgets_lines lines_from c_string trim cut_spaces
    skip_spaces split_fields pieces parse_header header_fields column_index index_from same_name
    misses_required parse_row row_fields row_field parse_phases parse_each parse_i64 strtoll
    scan_digits push_row any_not_positive process_validate process_make workload_push
    workload_push_phases push_sums append_process grow ck_add_i64 ◌+ℤ◌ ◌-ℤ◌ workload_init
file_read = (refl, refl, refl)

tokens_read :
    (read_workload_interactive grants (text "2\n 1 0 5\n2 1 3\n") false workload_init).0 ≡ ok
unfolding read_workload_interactive read_processes read_process read_int_token next_token take_token
    skip_spaces c_string parse_i64 strtoll scan_digits process_make process_validate workload_push
    workload_push_phases push_sums append_process grow ck_add_i64 ◌+ℤ◌ ◌-ℤ◌ workload_init
tokens_read = refl

tokens_end : (read_workload_interactive grants (text "2 1 0 5") true workload_init).0 ≡ e_io
unfolding read_workload_interactive read_processes read_process read_int_token next_token take_token
    skip_spaces c_string parse_i64 strtoll scan_digits process_make process_validate workload_push
    workload_push_phases push_sums append_process grow ck_add_i64 ◌+ℤ◌ ◌-ℤ◌ workload_init
tokens_end = refl

show_ℤ_example : parse_i64 (show_ℤ (negsuc 41)) ≡ some (negsuc 41)
show_ℤ_example = parse_i64-show_ℤ (negsuc 41) (omega arith, omega arith)

seventeen : parse_i64 (text "+017") ≡ some (pos 17)
unfolding parse_i64 strtoll skip_spaces scan_digits
seventeen = refl

large_out : ¬ IsI64 (pos 9_223_372_036_854_775_808)
large_out h = absurd (omega (arith, h))

parse_i64_example : parse_i64 (show_ℤ (pos 9_223_372_036_854_775_808)) ≡ none
parse_i64_example = parse_i64-refuses (pos 9_223_372_036_854_775_808) large_out

abbrev names : List Text
names = text "arrival" ∷ text "BURST" ∷ text "pid" ∷ []

abbrev cols : List ℕ
cols = 1 ∷ 2 ∷ 0 ∷ []

header_read : parse_header names ≡ some cols
unfolding parse_header header_fields column_index index_from same_name misses_required
header_read = refl

header_example :
    (length cols ≡ length names)
    × ((i : ℕ) → i < 3 → column_index (get_or names i []) ≡ some (get_or cols i 0))
    × ((c : ℕ) → count c cols ≤ 1)
    × (count 0 cols ≡ 1)
    × (count 1 cols ≡ 1)
    × (0 < count col_burst cols + count col_bursts cols)
header_example = parse_header-Columns names cols header_read

abbrev sample : Process
sample = record {
  pid = pos 4;
  arrival = pos 2;
  burst = pos 9;
  io = pos 0;
  priority = negsuc 0;
  tickets = pos 10;
  nice = negsuc 4;
  phase_start = 0;
  phase_count = 0;
}

row_example :
    parse_row grants int_columns (shown_row sample) workload_init
    ≡ elim (process_validate (unplaced sample)) [
      | ok ↦ workload_push grants workload_init (unplaced sample)
      | bad ↦ (bad, workload_init)
    ]
row_example =
    parse_row-shown sample (omega arith, omega arith) (omega arith, omega arith)
      (omega arith, omega arith) (omega arith, omega arith) (omega arith, omega arith)
      (omega arith, omega arith) grants workload_init

read_workload_csv_example : (false ≡ false) × (0 < length result.1.items)
read_workload_csv_example = read_workload_csv-ok grants file false workload_init file_read.0

no_items : AllValid workload_init.items
unfolding workload_init
no_items = tt

valid_example : AllValid result.1.items
valid_example = read_workload_csv-AllValid grants file false workload_init no_items
