-- ===== src/Input/Files.antt =====
-- src/io/input.c, the lines of a CSV file, and `read_workload_csv`.
use preemptive_and_non_preem.Base.{
  ℕ, ◌-◌, Bool, true, false, not, ◌&&◌, ◌||◌, none, some, List, [], ◌∷◌, ◌++◌, length, get_or, drop,
  leb, ◌==◌, if◌then◌else◌,
}
use preemptive_and_non_preem.Core.{Workload, SchedStatus, ok, e_input, e_io}
use preemptive_and_non_preem.Input.Text.{Text, c_string, trim, is_empty}
use preemptive_and_non_preem.Input.Csv.{split_fields, parse_header, parse_row}

abbrev pub line_max_len : ℕ
line_max_len = 4096

-- The lines that `fgets` gives: up to and with a line feed, of `line_max_len - 1` bytes at most. `left`
-- bytes fit in the buffer after those in `buf`.
unfoldable pub lines_from : ℕ → Text → Text → List Text
lines_from left buf [] = if is_empty buf then [] else buf ∷ []
lines_from left buf (c ∷ s) =
    let full = buf ++ c ∷ [] in
    let same = lines_from (left - 1) full s in
    let next = lines_from (line_max_len - 1) [] s in
    if c == b'\n' || leb left 1 then full ∷ next else same

unfoldable pub fgets_lines : Text → List Text
unfolding lines_from
fgets_lines s = lines_from (line_max_len - 1) [] s

-- The buffer is full and the line goes on: a buffer that `fgets` fills is not at the end of the file.
abbrev pub is_cut : Text → Bool
is_cut buf = length buf == line_max_len - 1 && not (get_or buf (line_max_len - 2) 0 == b'\n')

-- The UTF-8 byte order mark is 239, 187, 191.
abbrev pub skip_bom : Bool → Text → Text
skip_bom first s =
    if first && get_or s 0 0 == 239 && get_or s 1 0 == 187 && get_or s 2 0 == 191
    then drop 3 s
    else s

abbrev pub is_ignored : Text → Bool
is_ignored [] = true
is_ignored (c ∷ s) = c == b'#'

-- What a line leads to: the columns and the workload to go on with, or the end.
pub data Outcome : Type 0 where
  go_on : List ℕ → Workload → Outcome
  stop : SchedStatus → Workload → Outcome

abbrev pub row_outcome : List ℕ → SchedStatus × Workload → Outcome
row_outcome cols (ok, w) = go_on cols w
row_outcome cols (st, w) = stop st w

abbrev pub has_header : List ℕ → Bool
has_header [] = false
has_header (c ∷ cols) = true

-- One round of the loop, for the first line or a later one.
unfoldable pub csv_line : (ℕ → Bool) → Bool → Text → List ℕ → Workload → Outcome
unfolding c_string trim split_fields parse_header parse_row
csv_line alloc first line cols w =
    let buf = c_string line in
    let text = trim (skip_bom first buf) in
    if is_cut buf
    then stop e_input w
    else if is_ignored text
    then go_on cols w
    else elim (split_fields text) [
      | none ↦ stop e_input w
      | some fields ↦
          if has_header cols
          then row_outcome cols (parse_row alloc cols fields w)
          else elim (parse_header fields) [ none ↦ stop e_input w | some cols' ↦ go_on cols' w ]
    ]

-- `failed` is `ferror` at the end of the stream. No columns are those before the header.
unfoldable pub csv_lines :
    (ℕ → Bool) → Bool → Bool → List Text → List ℕ → Workload → SchedStatus × Workload
unfolding csv_line
csv_lines alloc failed first [] cols w =
    if failed
    then (e_io, w)
    else if not (has_header cols) || length w.items == 0
    then (e_input, w)
    else (ok, w)
csv_lines alloc failed first (line ∷ lines) cols w = elim (csv_line alloc first line cols w) [
  | stop st w' ↦ (st, w')
  | go_on cols' w' ↦ csv_lines alloc failed false lines cols' w'
]

unfoldable pub read_workload_csv : (ℕ → Bool) → Text → Bool → Workload → SchedStatus × Workload
unfolding csv_lines fgets_lines
read_workload_csv alloc input failed w = csv_lines alloc failed true (fgets_lines input) [] w
