-- ===== src/Cli.antt =====
-- src/cli/main.c: the parts that load a workload and that read and reconcile the options of MLFQ.
pub mod Loads
pub mod Levels
use preemptive_and_non_preem.Base.{
  ℕ, suc, Bool, true, false, not, ◌&&◌, ◌||◌, Option, none, some, List, [], ◌∷◌, length, leb, ltb,
  ◌==◌, if◌then◌else◌, update,
}
use preemptive_and_non_preem.Base.Int.{ℤ, pos, negsuc}
use preemptive_and_non_preem.Core.{Workload, SchedStatus, ok, e_io}
use preemptive_and_non_preem.Policy.{PolicyParams, policy_params_default}
use preemptive_and_non_preem.Workload.{workload_validate}
use preemptive_and_non_preem.Input.Text.{Text, parse_i64, pieces}
use preemptive_and_non_preem.Input.Files.{read_workload_csv}
use preemptive_and_non_preem.Input.Tokens.{read_workload_interactive}

-- What is read from a stream, and whether reading ends in an error.
pub record Stream : Type 0 where
  pub bytes : Text
  pub failed : Bool

-- The end of `load_workload`: what was read is validated.
abbrev pub validated : (ℕ → Bool) → SchedStatus × Workload → SchedStatus × Workload
validated alloc (ok, w) = (workload_validate alloc w, w)
validated alloc (st, w) = (st, w)

-- `fopen` is the file system. Without a path the interactive format is read from the standard input.
unfoldable pub load_workload :
    (ℕ → Bool) → (Text → Option Stream) → Stream → Option Text → Workload → SchedStatus × Workload
unfolding read_workload_csv read_workload_interactive
load_workload alloc fopen stdin input_path w = validated alloc (elim input_path [
  | none ↦ read_workload_interactive alloc stdin.bytes stdin.failed w
  | some path ↦ elim (fopen path) [
    | none ↦ (e_io, w)
    | some f ↦ read_workload_csv alloc f.bytes f.failed w
  ]
])

abbrev pub above_zero : ℤ → Option ℕ
above_zero (pos n) = if ltb 0 n then some n else none
above_zero (negsuc n) = none

unfoldable pub parse_positive : Text → Option ℕ
unfolding parse_i64
parse_positive v = elim (parse_i64 v) [ none ↦ none | some z ↦ above_zero z ]

abbrev pub list_buf : ℕ
list_buf = 32

-- The rounds of `parse_list` over the pieces between the commas.
unfoldable pub list_pieces : ℕ → ℕ → (ℕ → ℕ) → List Text → Option (ℕ × (ℕ → ℕ))
unfolding parse_positive
list_pieces max count out [] = some (count, out)
list_pieces max count out (v ∷ vs) =
    if count == max || length v == 0 || leb list_buf (length v)
    then none
    else elim (parse_positive v) [
      | none ↦ none
      | some n ↦ list_pieces max (suc count) (update out count n) vs
    ]

-- The count and the array that the list is written into. `none` is the result 0: the command line is
-- then refused, and the array is not read.
unfoldable pub parse_list : ℕ → (ℕ → ℕ) → Text → Option (ℕ × (ℕ → ℕ))
unfolding list_pieces pieces
parse_list max out v = let (first, others) = pieces b',' v in list_pieces max 0 out (first ∷ others)

-- The fields of `Options` that the options of MLFQ use.
pub record Options : Type 0 where
  pub params : PolicyParams
  pub quanta_given : Bool
  pub levels_given : Bool
  pub allot_given : Bool
  pub n_quanta : ℕ
  pub n_allot : ℕ

abbrev pub mlfq_max_levels : ℕ
mlfq_max_levels = 16

-- The start of `parse_options`.
unfoldable pub default_options : Options
unfolding policy_params_default
default_options = record {
  params = policy_params_default;
  quanta_given = false;
  levels_given = false;
  allot_given = false;
  n_quanta = 0;
  n_allot = 0;
}

-- The branches of `parse_option` for `--mlfq-levels=`, `--mlfq-quanta=` and `--mlfq-allot=`; `none` is a
-- usage error.
unfoldable pub levels_option : Options → Text → Option Options
unfolding parse_positive
levels_option opt v = elim (parse_positive v) [
  | none ↦ none
  | some l ↦
      if ltb mlfq_max_levels l
      then none
      else some (record opt { params = record opt.params { mlfq_levels = l }; levels_given = true })
]

unfoldable pub quanta_option : Options → Text → Option Options
unfolding parse_list
quanta_option opt v = elim (parse_list mlfq_max_levels opt.params.mlfq_quanta v) [
  | none ↦ none
  | some (count, out) ↦ some (record opt {
    params = record opt.params { mlfq_quanta = out };
    n_quanta = count;
    quanta_given = true;
  })
]

unfoldable pub allot_option : Options → Text → Option Options
unfolding parse_list
allot_option opt v = elim (parse_list mlfq_max_levels opt.params.mlfq_allotment v) [
  | none ↦ none
  | some (count, out) ↦ some (record opt {
    params = record opt.params { mlfq_allotment = out };
    n_allot = count;
    allot_given = true;
  })
]

-- Whether the allotments that were given are as many as the levels; without any they are the quanta.
abbrev pub finish_allot : Options → Option Options
finish_allot opt =
    if opt.allot_given
    then if opt.n_allot == opt.params.mlfq_levels then some opt else none
    else some
        (record opt { params = record opt.params { mlfq_allotment = opt.params.mlfq_quanta } })

abbrev pub levels_from_quanta : Options → Options
levels_from_quanta opt = record opt { params = record opt.params { mlfq_levels = opt.n_quanta } }

unfoldable pub finish_mlfq : Options → Option Options
finish_mlfq opt =
    if opt.quanta_given
    then if opt.levels_given && not (opt.n_quanta == opt.params.mlfq_levels)
      then none
      else finish_allot (levels_from_quanta opt)
    else finish_allot opt

-- An argument of the command line that is one of these three, with its value.
pub data MlfqArgument : Type 0 where
  levels quanta allot : Text → MlfqArgument

unfoldable pub mlfq_argument : Options → MlfqArgument → Option Options
unfolding levels_option quanta_option allot_option
mlfq_argument opt (levels v) = levels_option opt v
mlfq_argument opt (quanta v) = quanta_option opt v
mlfq_argument opt (allot v) = allot_option opt v

-- `parse_options` on such arguments.
unfoldable pub mlfq_options : Options → List MlfqArgument → Option Options
unfolding mlfq_argument finish_mlfq
mlfq_options opt [] = finish_mlfq opt
mlfq_options opt (a ∷ rest) = elim (mlfq_argument opt a) [
  | none ↦ none
  | some opt' ↦ mlfq_options opt' rest
]
