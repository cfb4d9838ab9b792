-- ===== src/Policies/Heaps/Shortest.antt =====
-- src/policies/sjf.c and srtf.c: with known bursts a slice goes to a process of the least length.
use preemptive_and_non_preem.Base.{
  ℕ, ◌<◌, ◌≡◌, refl, sym, ◌∙◌, Bool, true, false, Option, none, some, List, ◌∷◌, Perm, arith,
  length, ltb, ◌==◌, if◌then◌else◌,
}
use preemptive_and_non_preem.Core.{Process}
use preemptive_and_non_preem.Policy.{
  Float, View, Slice, earlier, arrival_of, pid_of, no_deadline, before, same, after,
  sched_cmp_expected_burst, sched_cmp_expected_remaining,
}
use preemptive_and_non_preem.Util.Heap.{Less, at, heap_empty, heap_pop}
use preemptive_and_non_preem.Util.Heap.Order.{IsOrder, IsHeap}
use preemptive_and_non_preem.Util.Heap.Pop.{heap_pop_correct}
use preemptive_and_non_preem.Policies.Sjf.{sjf_less, sjf_next_slice}
use preemptive_and_non_preem.Policies.Srtf.{srtf_less, srtf_next_slice}

-- By length, then by arrival, then by pid.
abbrev pub shorter : (ℕ → ℕ) → List Process → Less
shorter len procs a b = if len a == len b then earlier procs a b else ltb (len a) (len b)

shorter_asym :
    (k l a b p q : ℕ)
    → (if k == l then if a == b then ltb p q else ltb a b else ltb k l) ≡ true
    → (if l == k then if b == a then ltb q p else ltb b a else ltb l k) ≡ false
shorter_asym k l a b p q h = ground arith

shorter_trans :
    (k l m a b c p q r : ℕ)
    → (if l == k then if b == a then ltb q p else ltb b a else ltb l k) ≡ false
    → (if m == l then if c == b then ltb r q else ltb c b else ltb m l) ≡ false
    → (if m == k then if c == a then ltb r p else ltb c a else ltb m k) ≡ false
shorter_trans k l m a b c p q r h h' = ground arith

-- A comparison of lengths, as the code writes it.
by_sign :
    (k l : ℕ) (tie : Bool)
    → elim (if ltb l k then after else if ltb k l then before else same) [
      | before ↦ true
      | same ↦ tie
      | after ↦ false
    ]
      ≡ (if k == l then tie else ltb k l)
by_sign k l tie = ground arith

-- A comparison that agrees with `shorter` is an order.
agreeing-IsOrder :
    (less : Less) (len : ℕ → ℕ) (procs : List Process)
    → ((a b : ℕ) → less a b ≡ shorter len procs a b)
    → IsOrder less
agreeing-IsOrder less len procs agree = record {
  asym = λ a b h.
      let (arr, pid) : (ℕ → ℕ) × (ℕ → ℕ) = (arrival_of procs, pid_of procs) in
      let lt = sym (agree a b) ∙ h in
      agree b a ∙ shorter_asym (len a) (len b) (arr a) (arr b) (pid a) (pid b) lt;
  trans = λ a b c h k.
      let (arr, pid) : (ℕ → ℕ) × (ℕ → ℕ) = (arrival_of procs, pid_of procs) in
      let le = sym (agree b a) ∙ h in
      let le' = sym (agree c b) ∙ k in
      let all =
        shorter_trans (len a) (len b) (len c) (arr a) (arr b) (arr c) (pid a) (pid b) (pid c) le
          le' in
      agree c a ∙ all;
}

module _ {D : Type 0} (f : Float D) (v : View D) (oracle : v.predicted ≡ none) where
  sjf_less-shorter : (a b : ℕ) → sjf_less f v a b ≡ shorter v.burst_len v.procs a b
  unfolding sjf_less sched_cmp_expected_burst
  sjf_less-shorter a b = rw oracle (by_sign (v.burst_len a) (v.burst_len b) (earlier v.procs a b))

  srtf_less-shorter : (a b : ℕ) → srtf_less f v a b ≡ shorter v.remaining v.procs a b
  unfolding srtf_less sched_cmp_expected_remaining
  srtf_less-shorter a b = rw oracle (by_sign (v.remaining a) (v.remaining b) (earlier v.procs a b))

-- The two policies, with the length that each compares where bursts are known.
pub data ByLength : Type 0 where
  sjf srtf : ByLength

abbrev pub known_length : {D : Type 0} → ByLength → View D → ℕ → ℕ
known_length sjf v = v.burst_len
known_length srtf v = v.remaining

abbrev pub less_of : {D : Type 0} → Float D → ByLength → View D → Less
less_of f sjf v = sjf_less f v
less_of f srtf v = srtf_less f v

abbrev pub next_slice_of :
    {D : Type 0} → Float D → ByLength → View D → List ℕ → Option Slice × List ℕ
next_slice_of f sjf v s = sjf_next_slice f v s
next_slice_of f srtf v s = srtf_next_slice f v s

-- A slice to the end of the burst, for a process that no queued one goes before.
pub record IsShortestFirst {D : Type 0} (v : View D) (len : ℕ → ℕ) (less : Less) (s : List ℕ)
    (r : Option Slice × List ℕ) : Type 0 where
  pub p : ℕ
  pub rest : List ℕ
  pub picked :
      r ≡ (some (record { proc = p; length = v.remaining p; deadline = no_deadline }), rest)
  pub least : (i : ℕ) → i < length s → shorter len v.procs (at s i) p ≡ false
  pub heap : IsHeap less rest
  pub perm : Perm (p ∷ rest) s

module _ {D : Type 0} (f : Float D) (v : View D) (oracle : v.predicted ≡ none) where
  less_of-shorter :
      (k : ByLength) (a b : ℕ) → less_of f k v a b ≡ shorter (known_length k v) v.procs a b
  less_of-shorter sjf = sjf_less-shorter f v oracle
  less_of-shorter srtf = srtf_less-shorter f v oracle

  next_slice_of-pop :
      (k : ByLength) (s : List ℕ) (r : ℕ × List ℕ)
      → heap_empty s ≡ false
      → heap_pop (less_of f k v) s ≡ some r
      → next_slice_of f k v s
        ≡ (some (record { proc = r.0; length = v.remaining r.0; deadline = no_deadline }), r.1)
  unfolding sjf_next_slice srtf_next_slice
  next_slice_of-pop sjf s r full popped = rw (full, popped) refl
  next_slice_of-pop srtf s r full popped = rw (full, popped) refl

  -- Where there are no predictions, on a non-empty heap in order: SJF gives a slice to a process of the
  -- least burst, and SRTF to one of the least remaining burst, then by (arrival, pid), to the end of its
  -- burst; it leaves a heap in order of the others.
  pub next_slice_of-shortest :
      (k : ByLength) (s : List ℕ)
      → IsHeap (less_of f k v) s
      → 0 < length s
      → IsShortestFirst v (known_length k v) (less_of f k v) s (next_slice_of f k v s)
  unfolding heap_empty
  next_slice_of-shortest k s h left =
      let agree = less_of-shorter k in
      let order = agreeing-IsOrder (less_of f k v) (known_length k v) v.procs agree in
      let (r, popped, right) = (heap_pop_correct (less_of f k v) s order h).0 left in
      let full : heap_empty s ≡ false = ground (arith, left) in
      record {
        p = r.0;
        rest = r.1;
        picked = next_slice_of-pop k s r full popped;
        least = λ i lt. sym (agree (at s i) r.0) ∙ right.least i lt;
        heap = right.heap;
        perm = right.perm;
      }
