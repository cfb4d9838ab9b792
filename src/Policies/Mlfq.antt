-- ===== src/Policies/Mlfq.antt =====
-- src/policies/mlfq.c: the multi-level feedback queue. A level's queue is a doubly linked list through
-- the arrays `next` and `prev`; `none` is NIL.
pub mod Rules
use preemptive_and_non_preem.Base.{
  ℕ, zero, suc, ◌+◌, ◌-◌, ◌*◌, ◌/◌, Bool, true, false, not, ◌&&◌, ◌||◌, Option, none, some, ltb,
  leb, ◌==◌, if◌then◌else◌, update,
}
use preemptive_and_non_preem.Base.Int.{int64_max}
use preemptive_and_non_preem.Policy.{View, PolicyParams, Slice, no_deadline, Policy}

pub record Mlfq : Type 0 where
  pub levels : ℕ
  pub quanta : ℕ → ℕ
  pub allot : ℕ → ℕ
  pub boost : ℕ
  pub epoch : ℕ
  pub head : ℕ → Option ℕ
  pub tail : ℕ → Option ℕ
  pub next : ℕ → Option ℕ
  pub prev : ℕ → Option ℕ
  pub level : ℕ → ℕ
  pub used : ℕ → ℕ
  pub slice_left : ℕ → ℕ
  pub seen_epoch : ℕ → ℕ

abbrev pub is_nil : Option ℕ → Bool
is_nil none = true
is_nil (some p) = false

-- `array[i] = v` where `i` is an index, and nothing where it is NIL.
abbrev pub link : (ℕ → Option ℕ) → Option ℕ → Option ℕ → ℕ → Option ℕ
link array none v = array
link array (some i) v = update array i v

unfoldable pub push_back : Mlfq → ℕ → ℕ → Mlfq
push_back s l p = record s {
  next = link (update s.next p none) (s.tail l) (some p);
  prev = update s.prev p (s.tail l);
  head = if is_nil (s.tail l) then update s.head l (some p) else s.head;
  tail = update s.tail l (some p);
}

unfoldable pub push_front : Mlfq → ℕ → ℕ → Mlfq
push_front s l p = record s {
  prev = link (update s.prev p none) (s.head l) (some p);
  next = update s.next p (s.head l);
  tail = if is_nil (s.head l) then update s.tail l (some p) else s.tail;
  head = update s.head l (some p);
}

-- The head `p` of a queue that is not empty leaves it.
unfoldable pub pop_front : Mlfq → ℕ → ℕ → Mlfq
pop_front s l p = record s {
  head = update s.head l (s.next p);
  tail = if is_nil (s.next p) then update s.tail l none else s.tail;
  prev = link s.prev (s.next p) none;
}

-- One round of the loop of `maybe_boost`: level `l` is appended to the top one.
unfoldable pub lift_level : Mlfq → ℕ → Mlfq
lift_level s l =
    let lifted = record s {
      head = update (if is_nil (s.tail 0) then update s.head 0 (s.head l) else s.head) l none;
      next = link s.next (s.tail 0) (s.head l);
      prev = if is_nil (s.tail 0) then s.prev else link s.prev (s.head l) (s.tail 0);
      tail = update (update s.tail 0 (s.tail l)) l none;
    } in
    if is_nil (s.head l) then s else lifted

-- The levels from `l` on, `left` of them.
unfoldable pub lift_levels : ℕ → ℕ → Mlfq → Mlfq
unfolding lift_level
lift_levels zero l s = s
lift_levels (suc left) l s = lift_levels left (l + 1) (lift_level s l)

-- Whether a boost has reset the job, and the state.
unfoldable pub sync : Mlfq → ℕ → Bool × Mlfq
sync s p = if s.seen_epoch p == s.epoch then (false, s) else (
  true,
  record s {
    seen_epoch = update s.seen_epoch p s.epoch;
    level = update s.level p 0;
    used = update s.used p 0;
    slice_left = update s.slice_left p 0;
  },
)

-- Whether the job was demoted, and the state.
unfoldable pub charge : Mlfq → ℕ → ℕ → Bool × Mlfq
charge s p ran =
    let l = s.level p in
    let used = s.used p + ran in
    if ltb (l + 1) s.levels && leb (s.allot l) used
    then (true, record s { level = update s.level p (l + 1); used = update s.used p 0 })
    else (false, record s { used = update s.used p used })

-- The first level at or after `l`, among `left`, whose queue is not empty, with its head.
unfoldable pub find_level : (ℕ → Option ℕ) → ℕ → ℕ → Option (ℕ × ℕ)
find_level head zero l = none
find_level head (suc left) l =
    let rest = find_level head left (l + 1) in elim (head l) [ none ↦ rest | some p ↦ some (l, p) ]

-- The slice for `p`, the head of level `l`. At a level with an allotment, less than it is used.
unfoldable pub slice_at : Mlfq → ℕ → ℕ → Slice × Mlfq
unfolding pop_front sync
slice_at s l p =
    let s1 = (sync (pop_front s l p) p).1 in
    let full = if s1.slice_left p == 0 then s1.quanta l else s1.slice_left p in
    let rest = s1.allot l - s1.used p in
    let len = if ltb (l + 1) s1.levels && ltb rest full then rest else full in
    let deadline =
      if ltb 0 s1.boost && ltb s1.epoch (int64_max / s1.boost)
      then (s1.epoch + 1) * s1.boost
      else no_deadline in
    (
      record { proc = p; length = len; deadline = deadline },
      record s1 { slice_left = update s1.slice_left p len },
    )

module _ {D : Type 0} where
  unfoldable pub maybe_boost : View D → Mlfq → Mlfq
  unfolding lift_levels
  maybe_boost v s =
      let epoch = v.now / s.boost in
      if leb s.boost 0
      then s
      else if epoch == s.epoch
      then s
      else lift_levels (s.levels - 1) 1 (record s { epoch = epoch })

  unfoldable pub mlfq_create : View D → PolicyParams → Option Mlfq
  mlfq_create v params =
      let epoch = if ltb 0 params.mlfq_boost then v.now / params.mlfq_boost else 0 in
      some (record {
        levels = params.mlfq_levels;
        quanta = params.mlfq_quanta;
        allot = params.mlfq_allotment;
        boost = params.mlfq_boost;
        epoch = epoch;
        head = λ l. none;
        tail = λ l. none;
        next = λ p. none;
        prev = λ p. none;
        level = λ p. 0;
        used = λ p. 0;
        slice_left = λ p. 0;
        seen_epoch = λ p. epoch;
      })

  unfoldable pub mlfq_arrival : View D → Mlfq → ℕ → Mlfq
  unfolding maybe_boost sync push_back
  mlfq_arrival v s p =
      let s' = (sync (maybe_boost v s) p).1 in
      push_back
        (record s' {
          level = update s'.level p 0;
          used = update s'.used p 0;
          slice_left = update s'.slice_left p 0;
        })
        0 p

  -- `ran` is at most the rest of the slice.
  unfoldable pub mlfq_preempt : View D → Mlfq → ℕ → ℕ → Mlfq
  unfolding maybe_boost sync charge push_back push_front
  mlfq_preempt v s p ran =
      let (reset, s1) = sync (maybe_boost v s) p in
      let s2 = record s1 { slice_left = update s1.slice_left p (s1.slice_left p - ran) } in
      let (demoted, s3) = charge s2 p ran in
      if reset
      then push_back s1 0 p
      else if demoted || s3.slice_left p == 0
      then push_back (record s3 { slice_left = update s3.slice_left p 0 }) (s3.level p) p
      else push_front s3 (s3.level p) p

  unfoldable pub mlfq_block : View D → Mlfq → ℕ → ℕ → Mlfq
  unfolding maybe_boost sync charge
  mlfq_block v s p ran =
      let (reset, s1) = sync (maybe_boost v s) p in
      let s2 = if reset then s1 else (charge s1 p ran).1 in
      record s2 { slice_left = update s2.slice_left p 0 }

  unfoldable pub mlfq_ready : View D → Mlfq → ℕ → Mlfq
  unfolding maybe_boost sync push_back
  mlfq_ready v s p =
      let s1 = (sync (maybe_boost v s) p).1 in
      push_back (record s1 { slice_left = update s1.slice_left p 0 }) (s1.level p) p

  unfoldable pub mlfq_next_slice : View D → Mlfq → Option Slice × Mlfq
  unfolding maybe_boost find_level slice_at
  mlfq_next_slice v s =
      let s' = maybe_boost v s in
      elim (find_level s'.head s'.levels 0) [
        | none ↦ (none, s')
        | some (l, p) ↦ let (slice, s'') = slice_at s' l p in (some slice, s'')
      ]

unfoldable pub policy_mlfq : (D : Type 0) → Policy D Mlfq
policy_mlfq D = record {
  preemptive = true;
  preempt_on_ready = true;
  uses_quantum = false;
  uses_estimates = false;
  work_conserving = true;
  offline = false;
  create = mlfq_create;
  on_arrival = mlfq_arrival;
  on_ready = some mlfq_ready;
  next_slice = mlfq_next_slice;
  on_preempt = some mlfq_preempt;
  on_block = some mlfq_block;
  on_complete = none;
}
