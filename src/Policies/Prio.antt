-- ===== src/Policies/Prio.antt =====
-- src/policies/priority.c: the least effective priority first, non-preemptive and preemptive.
pub mod Tree
pub mod Keys
pub mod Best
pub mod Shape
pub mod Split
pub mod Erase
pub mod Searches
pub mod Sound
pub mod Hooks
pub mod Choice
pub mod Floor
pub mod Effective
pub mod Greatest
pub mod Deadline
pub mod Least
pub mod Runs
use preemptive_and_non_preem.Base.{
  ℕ, ◌+◌, ◌-◌, ◌%◌, Bool, true, false, ◌&&◌, not, Option, none, some, ltb, if◌then◌else◌, update,
}
use preemptive_and_non_preem.Base.Int.{ℤ, pos, pos_part, ◌+ℤ◌, ◌-ℤ◌, ◌*ℤ◌, ◌/ℤ◌, ◌%ℤ◌, ltb_ℤ, sub_ℕ}
use preemptive_and_non_preem.Policy.{View, PolicyParams, Slice, no_deadline, Policy, proc_at}
use preemptive_and_non_preem.Util.Bits.{mix}
use preemptive_and_non_preem.Util.Checked.{ck_add_i64}
use preemptive_and_non_preem.Policies.Prio.Tree.{
  Treap, leaf, node, Prio, sat_sub, key_less, best_of, insert, erase, best_below, best_at_or_above,
  max_r_below, max_r,
}

abbrev pub is_leaf : Treap → Bool
is_leaf leaf = true
is_leaf (node l x b r) = false

-- C's `c / k`, one less where the remainder is negative.
unfoldable pub floor_div : ℤ → ℕ → ℤ
unfolding ◌/ℤ◌ ◌%ℤ◌ ◌-ℤ◌
floor_div c k = if ltb_ℤ (c %ℤ k) (pos 0) then c /ℤ k -ℤ pos 1 else c /ℤ k

-- The keys of a process that joins the queue at `now`.
unfoldable pub set_keys : Prio → ℕ → ℕ → Prio
unfolding floor_div sat_sub ◌*ℤ◌ ◌-ℤ◌
set_keys s now p =
    let priority = (proc_at s.procs p).priority in
    let c = pos (s.waited p) -ℤ pos now in
    let q = floor_div c s.aging in
    let since = update s.ready_since p now in
    if ltb 0 s.aging
    then record s {
      ready_since = since;
      r = update s.r p (c -ℤ q *ℤ s.aging);
      base = update s.base p (sat_sub priority q);
    }
    else record s { ready_since = since; r = update s.r p (pos 0); base = update s.base p priority }

-- The process that is next, where `limit` parts those that have one more level from the others.
unfoldable pub choose : Prio → ℤ → Option ℕ
unfolding best_below best_at_or_above key_less
choose s limit = elim (best_below s limit) [
  | none ↦ best_at_or_above s limit
  | some low ↦ elim (best_at_or_above s limit) [
    | none ↦ some low
    | some high ↦ if key_less s high (pos 1) low (pos 0) then some high else some low
  ]
]

-- `limit` where there is aging.
abbrev pub limit_at : Prio → ℕ → ℤ
limit_at s now = pos (s.aging - now % s.aging)

-- The process that is next at `now`, or NIL.
unfoldable pub pick : Prio → ℕ → Option ℕ
unfolding choose
pick s now = if ltb 0 s.aging then choose s (limit_at s now) else best_of s.root

-- When the next queued process gains a level.
unfoldable pub deadline_at : Prio → ℕ → ℕ
unfolding max_r_below max_r ck_add_i64 ◌-ℤ◌
deadline_at s now =
    let limit = limit_at s now in
    let r_low = max_r_below s limit in
    let step = if ltb_ℤ r_low (pos 0) then pos s.aging -ℤ (max_r s -ℤ limit) else limit -ℤ r_low in
    elim (ck_add_i64 (pos now) step) [ none ↦ no_deadline | some t ↦ pos_part t ]

module _ {D : Type 0} where
  -- The `create` that both policies share.
  unfoldable pub create : Bool → View D → PolicyParams → Option Prio
  create preemptive v params = some (record {
    procs = v.procs;
    preemptive = preemptive;
    aging = params.aging;
    waited = λ p. 0;
    ready_since = λ p. 0;
    root = leaf;
    heap_prio = mix;
    r = λ p. pos 0;
    base = λ p. pos 0;
  })

  unfoldable pub prio_create : View D → PolicyParams → Option Prio
  unfolding create
  prio_create v params = create false v params

  unfoldable pub prio_p_create : View D → PolicyParams → Option Prio
  unfolding create
  prio_p_create v params = create true v params

  unfoldable pub enqueue : View D → Prio → ℕ → Prio
  unfolding set_keys insert
  enqueue v s p = let s' = set_keys s v.now p in record s' { root = insert s' s'.root p }

  unfoldable pub prio_new_burst : View D → Prio → ℕ → Prio
  unfolding enqueue
  prio_new_burst v s p = enqueue v (record s { waited = update s.waited p 0 }) p

  unfoldable pub prio_requeue : View D → Prio → ℕ → ℕ → Prio
  unfolding enqueue
  prio_requeue v s p ran = enqueue v s p

  -- The slice for the process `p`, which leaves the queue.
  unfoldable pub take_slice : View D → Prio → ℕ → Slice × Prio
  unfolding erase deadline_at
  take_slice v s p =
      let s' = record s {
        root = erase s s.root p;
        waited = update s.waited p (s.waited p + (v.now - s.ready_since p));
      } in
      let deadline =
        if s.preemptive && ltb 0 s.aging && not (is_leaf s'.root)
        then deadline_at s' v.now
        else no_deadline in
      (record { proc = p; length = v.remaining p; deadline = deadline }, s')

  -- `pick` is NIL where the queue is empty, and only there.
  unfoldable pub prio_next_slice : View D → Prio → Option Slice × Prio
  unfolding pick take_slice
  prio_next_slice v s = elim (pick s v.now) [
    | none ↦ (none, s)
    | some p ↦ let (slice, s') = take_slice v s p in (some slice, s')
  ]

unfoldable pub policy_prio : (D : Type 0) → Policy D Prio
policy_prio D = record {
  preemptive = false;
  preempt_on_ready = false;
  uses_quantum = false;
  uses_estimates = false;
  work_conserving = true;
  offline = false;
  create = prio_create;
  on_arrival = prio_new_burst;
  on_ready = some prio_new_burst;
  next_slice = prio_next_slice;
  on_preempt = none;
  on_block = none;
  on_complete = none;
}

unfoldable pub policy_prio_p : (D : Type 0) → Policy D Prio
policy_prio_p D = record {
  preemptive = true;
  preempt_on_ready = true;
  uses_quantum = false;
  uses_estimates = false;
  work_conserving = true;
  offline = false;
  create = prio_p_create;
  on_arrival = prio_new_burst;
  on_ready = some prio_new_burst;
  next_slice = prio_next_slice;
  on_preempt = some prio_requeue;
  on_block = none;
  on_complete = none;
}
