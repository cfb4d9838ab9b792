-- ===== src/Input/Tokens.antt =====
-- src/io/input.c, the interactive format: integers between spaces.
use preemptive_and_non_preem.Base.{
  ℕ, zero, suc, ◌-◌, Bool, Option, none, some, [], ◌∷◌, leb, if◌then◌else◌,
}
use preemptive_and_non_preem.Base.Int.{ℤ, pos, negsuc}
use preemptive_and_non_preem.Core.{Process, Workload, SchedStatus, ok, e_input, e_io, process_make}
use preemptive_and_non_preem.Workload.{process_validate, workload_push}
use preemptive_and_non_preem.Input.Text.{Text, isspace, c_string, skip_spaces, parse_i64}

-- `size` of the buffer, with the byte 0 at its end.
abbrev pub token_max : ℕ
token_max = 64

-- A token of at most `room` bytes, and what follows the byte after it; `none` for one that is longer.
unfoldable pub take_token : ℕ → Text → Option (Text × Text)
take_token room [] = some ([], [])
take_token zero (c ∷ s) = if isspace c then some ([], s) else none
take_token (suc room) (c ∷ s) =
    let rest = take_token room s in
    if isspace c
    then some ([], s)
    else elim rest [ none ↦ none | some (token, after) ↦ some (c ∷ token, after) ]

-- What `next_token` returns: 0, -1, or 1 with the token and the rest of the stream.
pub data Token : Type 0 where
  at_end too_long : Token
  token : Text → Text → Token

abbrev token_of : Option (Text × Text) → Token
token_of none = too_long
token_of (some (t, after)) = token t after

abbrev start_token : Text → Option (Text × Text) → Token
start_token [] t = at_end
start_token (c ∷ s) t = token_of t

unfoldable pub next_token : Text → Token
unfolding skip_spaces take_token
next_token s = let start = skip_spaces s in start_token start (take_token (token_max - 1) start)

-- An integer with the rest of the stream, or the status of the failure.
pub data Reading (A : Type 0) : Type 0 where
  value : A → Text → Reading A
  bad : SchedStatus → Reading A

-- `failed` is `ferror` at the end of the stream.
unfoldable pub read_int_token : Bool → Text → Reading ℤ
unfolding next_token parse_i64 c_string
read_int_token failed s = elim (next_token s) [
  | at_end ↦ bad (if failed then e_io else e_input)
  | too_long ↦ bad e_input
  | token t after ↦ elim (parse_i64 (c_string t)) [ none ↦ bad e_input | some v ↦ value v after ]
]

-- The three integers of one process.
unfoldable pub read_process : Bool → Text → Reading Process
unfolding read_int_token process_make
read_process failed s = elim (read_int_token failed s) [
  | bad st ↦ bad st
  | value pid s1 ↦ elim (read_int_token failed s1) [
    | bad st ↦ bad st
    | value arrival s2 ↦ elim (read_int_token failed s2) [
      | bad st ↦ bad st
      | value burst s3 ↦ value (process_make pid arrival burst) s3
    ]
  ]
]

-- The rounds of the loop, for `left` processes.
unfoldable pub read_processes : (ℕ → Bool) → Bool → ℕ → Text → Workload → SchedStatus × Workload
unfolding read_process process_validate workload_push
read_processes alloc failed zero s w = (ok, w)
read_processes alloc failed (suc left) s w = elim (read_process failed s) [
  | bad st ↦ (st, w)
  | value p s' ↦ elim (process_validate p) [
    | ok ↦
        let (pushed, w') = workload_push alloc w p in
        elim pushed [ ok ↦ read_processes alloc failed left s' w' | st ↦ (st, w') ]
    | st ↦ (st, w)
  ]
]

unfoldable pub read_workload_interactive :
    (ℕ → Bool) → Text → Bool → Workload → SchedStatus × Workload
unfolding read_int_token read_processes
read_workload_interactive alloc s failed w = elim (read_int_token failed s) [
  | bad st ↦ (st, w)
  | value (pos n) s' ↦ if leb n 0 then (e_input, w) else read_processes alloc failed n s' w
  | value (negsuc n) s' ↦ (e_input, w)
]
