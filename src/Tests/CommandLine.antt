-- ===== src/Tests/CommandLine.antt =====
-- The command line at concrete files and options.
use preemptive_and_non_preem.Base.{ℕ, ◌≡◌, refl, false, Option, none, some, List, [], ◌∷◌}
use preemptive_and_non_preem.Base.Sort.{insert, qsort}
use preemptive_and_non_preem.Base.Int.{◌+ℤ◌, ◌-ℤ◌}
use preemptive_and_non_preem.Util.Checked.{ck_add_i64}
use preemptive_and_non_preem.Core.{ok, e_io, e_input, workload_init, process_make}
use preemptive_and_non_preem.Policy.{policy_params_default}
use preemptive_and_non_preem.Workload.{
  process_validate, workload_push, workload_push_phases, push_sums, append_process, grow,
  phase_sums, validate_one, validate_all, has_repeat, workload_validate,
}
use preemptive_and_non_preem.Input.Text.{
  Text, c_string, skip_spaces, scan_digits, strtoll, parse_i64, cut_spaces, trim, pieces,
}
use preemptive_and_non_preem.Input.Csv.{
  split_fields, same_name, index_from, column_index, header_fields, misses_required, parse_header,
  parse_each, parse_phases, row_field, row_fields, any_not_positive, push_row, parse_row,
}
use preemptive_and_non_preem.Input.Files.{
  lines_from, fgets_lines, csv_line, csv_lines, read_workload_csv,
}
use preemptive_and_non_preem.Input.Tokens.{
  take_token, next_token, read_int_token, read_process, read_processes, read_workload_interactive,
}
use preemptive_and_non_preem.Tests.Inputs.{text, file, grants}
use preemptive_and_non_preem.Cli.{
  Stream, load_workload, parse_positive, list_pieces, parse_list, Options, default_options,
  levels_option, quanta_option, allot_option, finish_mlfq, MlfqArgument, levels, quanta, allot,
  mlfq_argument, mlfq_options,
}
use preemptive_and_non_preem.Cli.Loads.{IsReady, load_workload-IsReady}
use preemptive_and_non_preem.Cli.Levels.{IsLevelled, mlfq_options-IsLevelled}

abbrev disk : Text → Option Stream
disk [] = none
disk (c ∷ path) = some (record { bytes = file; failed = false })

abbrev terminal : Stream
terminal = record { bytes = text "2\n 1 0 5\n 1 2 3\n"; failed = false }

loaded : (load_workload grants disk terminal (some (text "jobs.csv")) workload_init).0 ≡ ok
unfolding load_workload read_workload_csv lines_from fgets_lines csv_lines csv_line c_string
    skip_spaces cut_spaces trim split_fields pieces same_name index_from column_index header_fields
    misses_required parse_header parse_each parse_phases row_field row_fields parse_row parse_i64
    strtoll scan_digits push_row any_not_positive process_validate process_make workload_push
    workload_push_phases push_sums append_process grow workload_init ck_add_i64 ◌+ℤ◌ ◌-ℤ◌
    workload_validate validate_all validate_one phase_sums has_repeat qsort insert
loaded = refl

-- A file that cannot be opened, and a pid that occurs twice.
unloaded :
    ((load_workload grants disk terminal (some []) workload_init).0 ≡ e_io)
    × ((load_workload grants disk terminal none workload_init).0 ≡ e_input)
unfolding load_workload read_workload_interactive read_processes read_process read_int_token
    next_token take_token c_string skip_spaces parse_i64 strtoll scan_digits process_validate
    process_make workload_push workload_push_phases push_sums append_process grow workload_init
    ck_add_i64 ◌+ℤ◌ ◌-ℤ◌ workload_validate validate_all validate_one phase_sums has_repeat qsort
    insert
unloaded = (refl, refl)

load_workload_example :
    IsReady (load_workload grants disk terminal (some (text "jobs.csv")) workload_init).1
load_workload_example =
    load_workload-IsReady grants disk terminal (some (text "jobs.csv")) workload_init loaded

abbrev arguments : List MlfqArgument
arguments = allot (text "5,6") ∷ levels (text "2") ∷ quanta (text "1,30") ∷ []

abbrev params_read : Option Options → List ℕ
params_read none = []
params_read (some opt) =
    opt.params.mlfq_levels
    ∷ opt.params.mlfq_quanta 0
    ∷ opt.params.mlfq_quanta 1
    ∷ opt.params.mlfq_allotment 1
    ∷ []

read_params :
    (params_read (mlfq_options default_options arguments) ≡ 2 ∷ 1 ∷ 30 ∷ 6 ∷ [])
    × (params_read (mlfq_options default_options (quanta (text "7") ∷ [])) ≡ 1 ∷ 7 ∷ 4 ∷ 4 ∷ [])
    × (mlfq_options default_options (levels (text "17") ∷ []) ≡ none)
    × (mlfq_options default_options (allot (text "5,6") ∷ []) ≡ none)
    × (mlfq_options default_options (quanta (text "5,,6") ∷ []) ≡ none)
unfolding mlfq_options mlfq_argument levels_option quanta_option allot_option parse_list pieces
    list_pieces parse_positive parse_i64 strtoll skip_spaces scan_digits finish_mlfq default_options
    policy_params_default
read_params = (refl, refl, refl, refl, refl)

abbrev the : {A : Type 0} → Option A → A → A
the none a = a
the (some a) b = a

accepted_options :
    mlfq_options default_options arguments
    ≡ some (the (mlfq_options default_options arguments) default_options)
unfolding mlfq_options mlfq_argument levels_option quanta_option allot_option parse_list pieces
    list_pieces parse_positive parse_i64 strtoll skip_spaces scan_digits finish_mlfq default_options
    policy_params_default
accepted_options = refl

mlfq_options_example : IsLevelled (the (mlfq_options default_options arguments) default_options)
mlfq_options_example = mlfq_options-IsLevelled arguments _ accepted_options
