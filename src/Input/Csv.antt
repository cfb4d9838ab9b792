-- ===== src/Input/Csv.antt =====
-- src/io/input.c, the CSV format with a header.
use preemptive_and_non_preem.Base.{
  ℕ, ◌+◌, ◌%◌, Bool, true, false, not, ◌&&◌, ◌||◌, Option, none, some, List, [], ◌∷◌, map, length,
  get_or, update, ltb, ◌==◌, if◌then◌else◌,
}
use preemptive_and_non_preem.Base.Int.{ℤ, pos, leb_ℤ}
use preemptive_and_non_preem.Core.{Process, Workload, SchedStatus, ok, e_input, process_make}
use preemptive_and_non_preem.Workload.{process_validate, workload_push, workload_push_phases}
use preemptive_and_non_preem.Input.Text.{Text, tolower, trim, pieces, parse_i64, is_empty}

-- `kind` is COL_PHASES or COL_INT, and `store` writes the field of the process at `offset`.
pub record Column : Type 0 where
  pub name : Text
  pub is_phases : Bool
  pub store : Process → ℤ → Process
  pub required : Bool

abbrev int_column : Text → (Process → ℤ → Process) → Bool → Column
int_column name store required = record {
  name = name;
  is_phases = false;
  store = store;
  required = required;
}

abbrev pub columns : List Column
columns =
    int_column (b'p' ∷ b'i' ∷ b'd' ∷ []) (λ p v. record p { pid = v }) true
    ∷ int_column (b'a' ∷ b'r' ∷ b'r' ∷ b'i' ∷ b'v' ∷ b'a' ∷ b'l' ∷ [])
        (λ p v. record p { arrival = v }) true
    ∷ int_column (b'b' ∷ b'u' ∷ b'r' ∷ b's' ∷ b't' ∷ []) (λ p v. record p { burst = v }) false
    ∷ record {
      name = b'b' ∷ b'u' ∷ b'r' ∷ b's' ∷ b't' ∷ b's' ∷ [];
      is_phases = true;
      store = λ p v. p;
      required = false;
    }
    ∷ int_column (b'p' ∷ b'r' ∷ b'i' ∷ b'o' ∷ b'r' ∷ b'i' ∷ b't' ∷ b'y' ∷ [])
        (λ p v. record p { priority = v }) false
    ∷ int_column (b't' ∷ b'i' ∷ b'c' ∷ b'k' ∷ b'e' ∷ b't' ∷ b's' ∷ [])
        (λ p v. record p { tickets = v }) false
    ∷ int_column (b'n' ∷ b'i' ∷ b'c' ∷ b'e' ∷ []) (λ p v. record p { nice = v }) false
    ∷ []

abbrev no_column : Column
no_column = int_column [] (λ p v. p) false

abbrev pub column_at : ℕ → Column
column_at c = get_or columns c no_column

abbrev pub col_burst : ℕ
col_burst = 2

abbrev pub col_bursts : ℕ
col_bursts = 3

abbrev pub max_columns : ℕ
max_columns = 16

abbrev pub max_phases : ℕ
max_phases = 2048

-- The fields of a line, or `none` for -1.
unfoldable pub split_fields : Text → Option (List Text)
unfolding trim pieces
split_fields line =
    let (first, others) = pieces b',' line in
    if ltb max_columns (length (first ∷ others)) then none else some (map trim (first ∷ others))

-- Whether `a`, in lower case, is the name `b` in any case.
unfoldable pub same_name : Text → Text → Bool
same_name [] [] = true
same_name [] (y ∷ b) = false
same_name (x ∷ a) [] = false
same_name (x ∷ a) (y ∷ b) = tolower y == x && same_name a b

-- The first column with the name, from index `i` on, or `none` for -1.
unfoldable pub index_from : ℕ → List Column → Text → Option ℕ
unfolding same_name
index_from i [] name = none
index_from i (c ∷ cs) name =
    let rest = index_from (i + 1) cs name in if same_name c.name name then some i else rest

unfoldable pub column_index : Text → Option ℕ
unfolding index_from
column_index name = index_from 0 columns name

-- The columns of the fields, where none is unknown or seen before, and which have been seen.
unfoldable pub header_fields : (ℕ → Bool) → List Text → Option (List ℕ × (ℕ → Bool))
unfolding column_index
header_fields seen [] = some ([], seen)
header_fields seen (name ∷ names) = elim (column_index name) [
  | none ↦ none
  | some c ↦ if seen c then none else elim (header_fields (update seen c true) names) [
    | none ↦ none
    | some (cols, all) ↦ some (c ∷ cols, all)
  ]
]

-- Whether a required column, from index `c` on, has not been seen.
unfoldable pub misses_required : (ℕ → Bool) → ℕ → List Column → Bool
misses_required seen c [] = false
misses_required seen c (col ∷ cols) =
    (col.required && not (seen c)) || misses_required seen (c + 1) cols

-- The column of each field, or `none` for SCHED_E_INPUT.
unfoldable pub parse_header : List Text → Option (List ℕ)
unfolding header_fields misses_required
parse_header names = elim (header_fields (λ c. false) names) [
  | none ↦ none
  | some (cols, seen) ↦
      if misses_required seen 0 columns
      then none
      else if not (seen col_burst) && not (seen col_bursts)
      then none
      else some cols
]

unfoldable pub parse_each : List Text → Option (List ℤ)
unfolding parse_i64 trim
parse_each [] = some []
parse_each (t ∷ ts) = elim (parse_i64 (trim t)) [
  | none ↦ none
  | some x ↦ elim (parse_each ts) [ none ↦ none | some xs ↦ some (x ∷ xs) ]
]

-- The phases, or `none` for -1.
unfoldable pub parse_phases : Text → Option (List ℤ)
unfolding parse_each pieces
parse_phases text =
    let (first, others) = pieces b':' text in
    if ltb max_phases (length (first ∷ others)) then none else parse_each (first ∷ others)

-- What the loop over the fields of a row gathers.
pub record Row : Type 0 where
  pub process : Process
  pub phases : List ℤ
  pub have_burst : Bool

unfoldable pub row_field : ℕ → Text → Row → Option Row
unfolding parse_phases parse_i64
row_field c field row =
    let col = column_at c in
    if is_empty field && not col.required
    then some row
    else if col.is_phases
    then elim (parse_phases field) [
      | none ↦ none
      | some phases ↦ some (record row { phases = phases })
    ]
    else elim (parse_i64 field) [
      | none ↦ none
      | some v ↦ some (record row {
        process = col.store row.process v;
        have_burst = if c == col_burst then true else row.have_burst;
      })
    ]

unfoldable pub row_fields : List ℕ → List Text → Row → Option Row
unfolding row_field
row_fields (c ∷ cols) (field ∷ fields) row = elim (row_field c field row) [
  | none ↦ none
  | some row' ↦ row_fields cols fields row'
]
row_fields cols fields row = some row

abbrev pub head_or : List ℤ → ℤ → ℤ
head_or [] d = d
head_or (x ∷ xs) d = x

unfoldable pub any_not_positive : List ℤ → Bool
any_not_positive [] = false
any_not_positive (x ∷ xs) = leb_ℤ x (pos 0) || any_not_positive xs

-- The row becomes a process of the workload.
unfoldable pub push_row : (ℕ → Bool) → Row → Workload → SchedStatus × Workload
unfolding process_validate workload_push workload_push_phases any_not_positive
push_row alloc row w =
    let p = row.process in
    let p' = record p { burst = head_or row.phases p.burst } in
    let some_phases = ltb 0 (length row.phases) in
    if some_phases && length row.phases % 2 == 0
    then (e_input, w)
    else if some_phases && any_not_positive row.phases
    then (e_input, w)
    else if not some_phases && not row.have_burst
    then (e_input, w)
    else elim (process_validate p') [
      | ok ↦
          if some_phases
          then workload_push_phases alloc w p' row.phases
          else workload_push alloc w p'
      | bad ↦ (bad, w)
    ]

unfoldable pub parse_row : (ℕ → Bool) → List ℕ → List Text → Workload → SchedStatus × Workload
unfolding row_fields push_row process_make
parse_row alloc cols fields w =
    let start : Row = record {
      process = process_make (pos 0) (pos 0) (pos 0);
      phases = [];
      have_burst = false;
    } in
    if not (length fields == length cols)
    then (e_input, w)
    else elim (row_fields cols fields start) [
      | none ↦ (e_input, w)
      | some row ↦ push_row alloc row w
    ]
