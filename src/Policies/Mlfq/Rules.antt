-- ===== src/Policies/Mlfq/Rules.antt =====
-- src/policies/mlfq.c: which process the feedback queue picks, and for how long.
use mathlib.Core.Path.{ap₂}
use native.Mathlib.Decide.{dec_lt}
use preemptive_and_non_preem.Base.{
  ℕ, zero, suc, ◌+◌, ◌-◌, ◌*◌, ◌/◌, ◌<◌, ◌≤◌, ◌≡◌, refl, sym, ap, ◌∙◌, ◌&&◌, Bool, true, false,
  ◌==◌, if◌then◌else◌, update, Option, none, some, ltb, arith, ◌⊎◌, inl, inr, if_holds,
  Option-cases,
}
use preemptive_and_non_preem.Base.Int.{int64_max}
use preemptive_and_non_preem.Policy.{View, Slice, no_deadline}
use preemptive_and_non_preem.Policies.Mlfq.{
  Mlfq, find_level, slice_at, maybe_boost, mlfq_next_slice, sync, pop_front, is_nil,
}

-- One more level is empty.
one_more :
    (head : ℕ → Option ℕ) (l : ℕ)
    → head l ≡ none
    → ((k : ℕ) → k < l → head k ≡ none)
    → (k : ℕ) → k < l + 1
    → head k ≡ none
one_more head l e clear k h = elim (dec_lt k l) [
  | yes below ↦ clear k below
  | no last ↦ let here : k ≡ l = omega (arith, h, last) in ap head here ∙ e
]

-- `l` is the first level that has a process, and `p` its head.
pub record First (head : ℕ → Option ℕ) (levels l p : ℕ) : Type 0 where
  pub within : l < levels
  pub here : head l ≡ some p
  pub above : (k : ℕ) → k < l → head k ≡ none

find_level-First :
    (head : ℕ → Option ℕ) (left l m p : ℕ)
    → find_level head left l ≡ some (m, p)
    → ((k : ℕ) → k < l → head k ≡ none)
    → First head (l + left) m p
unfolding find_level
find_level-First head zero l m p h clear = cc
find_level-First head (suc left) l m p h clear = elim (Option-cases (head l)) [
  | inl e ↦
      let f =
        find_level-First head left (l + 1) m p (simp (e, find_level) at h)
          (one_more head l e clear) in
      record { within = omega (arith, f.within); here = f.here; above = f.above }
  | inr (q, e) ↦
      let at_l : some (l, q) ≡ some (m, p) = simp (e, find_level) at h in
      let level : l ≡ m = cc in
      let proc : q ≡ p = cc in
      record {
        within = omega (arith, level);
        here = ap head (sym level) ∙ e ∙ ap some proc;
        above = λ k lo. clear k (omega (arith, lo, level));
      }
]

find_level-none :
    (head : ℕ → Option ℕ) (left l : ℕ)
    → find_level head left l ≡ none
    → ((k : ℕ) → k < l → head k ≡ none)
    → (k : ℕ) → k < l + left
    → head k ≡ none
unfolding find_level
find_level-none head zero l h clear k lo = clear k (omega arith)
find_level-none head (suc left) l h clear k lo = elim (Option-cases (head l)) [
  | inl e ↦
      find_level-none head left (l + 1) (simp (e, find_level) at h) (one_more head l e clear) k
        (omega (arith, lo))
  | inr (q, e) ↦ let at_l : some (l, q) ≡ none = simp (e, find_level) at h in cc
]

-- What a job has used of its allotment and what is left of its slice, once a boost that it has not seen
-- is taken into account.
abbrev pub used_now : Mlfq → ℕ → ℕ
used_now t p = if t.seen_epoch p == t.epoch then t.used p else 0

abbrev pub left_now : Mlfq → ℕ → ℕ
left_now t p = if t.seen_epoch p == t.epoch then t.slice_left p else 0

-- The rest of its slice, or a fresh quantum.
abbrev pub budget : Mlfq → ℕ → ℕ → ℕ
budget t l p = if left_now t p == 0 then t.quanta l else left_now t p

-- What one call of `next_slice` gives from the state `t`, in which the boosts are up to date: the head of
-- the first level that has a process. Its level's queue goes on with the next one in it, and no other
-- queue changes. The slice is the lesser of the budget and, at any level but the last, the rest of the
-- allotment; it lasts up to the next boost at most.
pub record Pick (t : Mlfq) (l : ℕ) (slice : Slice) (r : Mlfq) : Type 0 where
  pub first : First t.head t.levels l slice.proc
  pub popped : r.head ≡ update t.head l (t.next slice.proc)
  pub ends : r.tail ≡ (if is_nil (t.next slice.proc) then update t.tail l none else t.tail)
  pub links : r.next ≡ t.next
  pub in_budget : slice.length ≤ budget t l slice.proc
  pub allotted : l + 1 < t.levels → slice.length ≤ t.allot l - used_now t slice.proc
  pub no_less :
      (slice.length ≡ budget t l slice.proc)
      ⊎ ((l + 1 < t.levels) × (slice.length ≡ t.allot l - used_now t slice.proc))
  pub kept : r.slice_left slice.proc ≡ slice.length
  pub boosted : (slice.deadline ≡ no_deadline) ⊎ (slice.deadline ≡ (t.epoch + 1) * t.boost)

-- What taking `p` out of its queue, and a reset, leave alone.
record Kept (t : Mlfq) (l p : ℕ) (r : Mlfq) : Type 0 where
  levels : r.levels ≡ t.levels
  allot : r.allot ≡ t.allot
  quanta : r.quanta ≡ t.quanta
  boost : r.boost ≡ t.boost
  epoch : r.epoch ≡ t.epoch
  head : r.head ≡ update t.head l (t.next p)
  tail : r.tail ≡ (if is_nil (t.next p) then update t.tail l none else t.tail)
  next : r.next ≡ t.next
  used : r.used p ≡ used_now t p
  left : r.slice_left p ≡ left_now t p

taken-Kept : (t : Mlfq) (l p : ℕ) → Kept t l p (sync (pop_front t l p) p).1
unfolding sync pop_front
taken-Kept t l p = record {
  levels = ground arith;
  allot = ground arith;
  quanta = ground arith;
  boost = ground arith;
  epoch = ground arith;
  head =
      if_holds (λ (x : Bool × Mlfq). x.1.head ≡ update t.head l (t.next p))
        (t.seen_epoch p == t.epoch) (λ _. refl) (λ _. refl);
  tail =
      if_holds
        (λ (x : Bool × Mlfq).
          x.1.tail ≡ (if is_nil (t.next p) then update t.tail l none else t.tail))
        (t.seen_epoch p == t.epoch) (λ _. refl) (λ _. refl);
  next =
      if_holds (λ (x : Bool × Mlfq). x.1.next ≡ t.next) (t.seen_epoch p == t.epoch) (λ _. refl)
        (λ _. refl);
  used = ground arith;
  left = ground arith;
}

-- The lesser of a budget and, where there is a limit, the limit.
lesser :
    (last : Bool) (rest full : ℕ)
    → ((if last && ltb rest full then rest else full) ≤ full)
      × (last ≡ true → (if last && ltb rest full then rest else full) ≤ rest)
      × (((if last && ltb rest full then rest else full) ≡ full)
          ⊎ ((last ≡ true) × ((if last && ltb rest full then rest else full) ≡ rest)))
lesser true rest full = ground arith
lesser false rest full = (omega arith, λ h. cc, inl refl)

slice_at-Pick :
    (t : Mlfq) (l p : ℕ)
    → First t.head t.levels l p
    → Pick t l (slice_at t l p).0 (slice_at t l p).1
unfolding slice_at
slice_at-Pick t l p f =
    let k = taken-Kept t l p in
    let r = (sync (pop_front t l p) p).1 in
    let quantum : r.quanta l ≡ t.quanta l = ap (λ (a : ℕ → ℕ). a l) k.quanta in
    let allotment : r.allot l ≡ t.allot l = ap (λ (a : ℕ → ℕ). a l) k.allot in
    let rest : r.allot l - r.used p ≡ t.allot l - used_now t p =
      ap₂ (λ (x y : ℕ). x - y) allotment k.used in
    let full : (if r.slice_left p == 0 then r.quanta l else r.slice_left p) ≡ budget t l p =
      ap₂ (λ (x y : ℕ). if x == 0 then y else x) k.left quantum in
    let (low, limited, either) =
      lesser (ltb (l + 1) r.levels) (r.allot l - r.used p)
        (if r.slice_left p == 0 then r.quanta l else r.slice_left p) in
    record {
      first = f;
      popped = k.head;
      ends = k.tail;
      links = k.next;
      in_budget = omega (arith, low, full);
      allotted = λ h.
          let below : ltb (l + 1) r.levels ≡ true = ground (arith, k.levels, h) in
          omega (arith, limited below, rest);
      no_less = elim either [
        | inl e ↦ inl (e ∙ full)
        | inr (below, e) ↦ inr (ground (arith, k.levels, below), e ∙ rest)
      ];
      kept = ground arith;
      boosted =
          if_holds (λ (x : ℕ). (x ≡ no_deadline) ⊎ (x ≡ (t.epoch + 1) * t.boost))
            (ltb 0 r.boost && ltb r.epoch (int64_max / r.boost))
            (λ _. inr (ap₂ (λ (x y : ℕ). (x + 1) * y) k.epoch k.boost)) (λ _. inl refl);
    }

-- `mlfq_next_slice` first applies the boosts that are due. Then either no level has a process and there is
-- no slice, or the slice goes to the head of the first level that has one, which leaves that level's
-- queue, and no other queue changes. Its length is the lesser of the rest of its slice, or a quantum of
-- the level where none is left or a boost has reset it, and at any level but the last of the rest of its
-- allotment, and is kept as the rest of its slice.
pub mlfq_next_slice-Pick :
    {D : Type 0} (v : View D) (s : Mlfq)
    → let t = maybe_boost v s in
      (((k : ℕ) → k < t.levels → t.head k ≡ none) × (mlfq_next_slice v s ≡ (none, t)))
      ⊎ ((l : ℕ) × (slice : Slice) × (r : Mlfq) × (mlfq_next_slice v s ≡ (some slice, r))
          × Pick t l slice r)
unfolding mlfq_next_slice
mlfq_next_slice-Pick v s =
    let t = maybe_boost v s in
    elim (Option-cases (find_level t.head t.levels 0)) [
      | inl e ↦ inl (
        (λ k lo.
            find_level-none t.head t.levels 0 e (λ j h. absurd (omega (arith, h))) k
              (omega (arith, lo))),
        simp (e, mlfq_next_slice) refl,
      )
      | inr (r, e) ↦
          let f = find_level-First t.head t.levels 0 r.0 r.1 e (λ k h. absurd (omega (arith, h))) in
          let f' : First t.head t.levels r.0 r.1 = record {
            within = omega (arith, f.within);
            here = f.here;
            above = f.above;
          } in
          inr (
            r.0,
            (slice_at t r.0 r.1).0,
            (slice_at t r.0 r.1).1,
            simp (e, mlfq_next_slice) refl,
            slice_at-Pick t r.0 r.1 f',
          )
    ]
