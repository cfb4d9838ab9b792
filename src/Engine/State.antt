-- ===== src/Engine/State.antt =====
-- include/sched/engine.h and the data of engine.c: segments, cores, options, the engine's state, and
-- the timeline. Arrays that are indexed by a process or a core are functions of the index.
use preemptive_and_non_preem.Base.{
  ℕ, ◌+◌, Bool, true, false, not, ◌&&◌, ◌||◌, Option, none, some, List, [], ◌∷◌, ltb, leb, ◌==◌,
  if◌then◌else◌, length, update,
}
use preemptive_and_non_preem.Base.Int.{ℤ, pos, pos_part, int64_max}
use preemptive_and_non_preem.Core.{Workload}
use preemptive_and_non_preem.Policy.{View, pid_of}
use preemptive_and_non_preem.Util.Checked.{ck_add_i64}

pub data SegmentKind : Type 0 where
  run idle cs : SegmentKind

-- `proc` is `none` for SCHED_IDLE.
pub record Segment : Type 0 where
  pub start : ℕ
  pub end : ℕ
  pub proc : Option ℕ
  pub kind : SegmentKind

-- `none` is SCHED_NONE.
pub record Core : Type 0 where
  pub proc : Option ℕ
  pub in_cs : Bool
  pub recheck : Bool
  pub busy_until : ℕ
  pub run_start : ℕ
  pub run_end : ℕ
  pub length : ℕ
  pub deadline : ℕ
  pub context : Option ℕ
  pub free_since : ℕ

pub data EngineFail : Type 0 where
  fine nomem limit overflow : EngineFail

pub data PredictMode : Type 0 where
  oracle ewma : PredictMode

pub record SimOptions (D : Type 0) : Type 0 where
  pub cores : ℕ
  pub cs_cost : ℤ
  pub predict : PredictMode
  pub alpha : D
  pub tau0 : D
  pub max_segments : ℕ

-- The engine's own state with the parts of `SimResult` that it fills. The time of `start` and
-- `completion` is `none` for -1. A timeline has its newest segment first.
pub record Engine (D S : Type 0) : Type 0 where
  pub state : S
  pub now : ℕ
  pub next : ℕ
  pub remaining : ℕ → ℕ
  pub burst_len : ℕ → ℕ
  pub predicted : Option (ℕ → D)
  pub phase : ℕ → ℕ
  pub wake : ℕ → ℕ
  pub blocked : List ℕ
  pub cores : ℕ → Core
  pub segments : ℕ
  pub completed : ℕ
  pub fail : EngineFail
  pub start : ℕ → Option ℕ
  pub completion : ℕ → Option ℕ
  pub timelines : ℕ → List Segment
  pub switches : ℕ
  pub cs_time : ℕ

abbrev pub is_fine : EngineFail → Bool
is_fine fine = true
is_fine nomem = false
is_fine limit = false
is_fine overflow = false

abbrev pub same_kind : SegmentKind → SegmentKind → Bool
same_kind run run = true
same_kind run idle = false
same_kind run cs = false
same_kind idle run = false
same_kind idle idle = true
same_kind idle cs = false
same_kind cs run = false
same_kind cs idle = false
same_kind cs cs = true

-- Equality of process indices that may be SCHED_NONE.
abbrev pub same_proc : Option ℕ → Option ℕ → Bool
same_proc none none = true
same_proc none (some q) = false
same_proc (some p) none = false
same_proc (some p) (some q) = p == q

abbrev pub is_free : Core → Bool
is_free c = elim c.proc [ none ↦ true | some p ↦ false ]

-- Whether a new segment extends the newest one.
abbrev pub extends : List Segment → Segment → Bool
extends [] s = false
extends (last ∷ older) s =
    same_kind last.kind s.kind && same_proc last.proc s.proc && last.end == s.start

-- The timeline with its newest segment ending at `end`.
abbrev pub stretch : List Segment → ℕ → List Segment
stretch [] end = []
stretch (last ∷ older) end = record last { end = end } ∷ older

module _ {D S : Type 0} (w : Workload) (opt : SimOptions D) where
  -- The view that the engine lends to the policy.
  abbrev pub view_of : Engine D S → View D
  view_of e = record {
    procs = w.items;
    n = length w.items;
    cores = opt.cores;
    cs_cost = pos_part opt.cs_cost;
    now = e.now;
    remaining = e.remaining;
    burst_len = e.burst_len;
    predicted = e.predicted;
  }

  unfoldable pub blocked_less : Engine D S → ℕ → ℕ → Bool
  blocked_less e a b =
      if e.wake a == e.wake b
      then ltb (pid_of w.items a) (pid_of w.items b)
      else ltb (e.wake a) (e.wake b)

  -- The array of a timeline is taken to grow: memory exhaustion is not modelled.
  unfoldable pub append : Engine D S → ℕ → Segment → Engine D S
  append e core s =
      if leb s.end s.start || not (is_fine e.fail)
      then e
      else if extends (e.timelines core) s
      then record e { timelines = update e.timelines core (stretch (e.timelines core) s.end) }
      else if leb opt.max_segments e.segments
      then record e { fail = limit }
      else record e {
        timelines = update e.timelines core (s ∷ e.timelines core);
        segments = e.segments + 1;
      }

-- The time and the engine, which a sum past `INT64_MAX` makes fail.
unfoldable pub add_time : {D S : Type 0} → Engine D S → ℕ → ℕ → ℕ × Engine D S
add_time e a b = elim (ck_add_i64 (pos a) (pos b)) [
  | none ↦ (int64_max, record e { fail = overflow })
  | some r ↦ (pos_part r, e)
]
