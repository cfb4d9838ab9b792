-- ===== src/Workload/Phases.antt =====
-- src/core/workload.c: the sums of the phases, as `workload_validate` adds them, and the horizon.
use mathlib.Core.Path.{ap₂, subst}
use preemptive_and_non_preem.Base.{
  ℕ, suc, ◌+◌, ◌<◌, ◌≤◌, ◌≡◌, refl, sym, ap, ◌∙◌, Bool, true, false, not, ◌||◌, Option, none, some,
  List, [], ◌∷◌, if◌then◌else◌, step_passed, guard_passed, arith, length, ◌%◌, ◌==◌, ltb,
}
use preemptive_and_non_preem.Base.Int.{
  ℤ, pos, negsuc, ◌+ℤ◌, ◌-ℤ◌, leb_ℤ, ltb_ℤ, eqb_ℤ, IsI64, eq_of_parts, pos_part, int64_max,
}
use preemptive_and_non_preem.Util.Checked.{ck_add_i64}
use preemptive_and_non_preem.Core.{
  Process, Workload, SchedStatus, ok, e_input, e_usage, e_io, e_nomem,
}
use preemptive_and_non_preem.Workload.{
  phase_sums, validate_one, validate_all, workload_validate, horizon_from, workload_horizon,
  workload_phases, process_validate,
}

-- What a checked addition of two non-negative numbers returns.
ck_add_i64-pos : (a b : ℕ) (c : ℤ) → ck_add_i64 (pos a) (pos b) ≡ some c → c ≡ pos (a + b)
unfolding ck_add_i64 ◌+ℤ◌ ◌-ℤ◌
ck_add_i64-pos a b c h = ground arith

-- The phases that `phase_sums` accepts are positive; it adds them without an overflow, to the CPU or the
-- I/O time and to the total alike.
record Summed (a b t : ℕ) (r : ℤ × ℤ × ℤ) : Type 0 where
  cpu : ℕ
  io : ℕ
  total : ℕ
  parts : r ≡ (pos cpu, pos io, pos total)
  balance : total + a + b ≡ t + cpu + io

phase_sums-Summed :
    (is_io : Bool) (a b t : ℕ) (xs : List ℤ) (r : ℤ × ℤ × ℤ)
    → phase_sums is_io (pos a) (pos b) (pos t) xs ≡ some r
    → Summed a b t r
unfolding phase_sums
phase_sums-Summed is_io a b t [] r h =
    let e : (pos a, pos b, pos t) ≡ r = cc in
    record { cpu = a; io = b; total = t; parts = sym e; balance = refl }
phase_sums-Summed is_io a b t (negsuc n ∷ xs) r h =
    let (positive, _) = guard_passed (leb_ℤ (negsuc n) (pos 0)) _ r h in
    let bad : suc n ≤ 0 = ground (arith, positive) in absurd (omega (arith, bad))
phase_sums-Summed true a b t (pos n ∷ xs) r h =
    let (_, h1) = guard_passed (leb_ℤ (pos n) (pos 0)) _ r h in
    let (s, e, h2) = step_passed (ck_add_i64 (pos b) (pos n)) _ r h1 in
    let (u, e', h3) = step_passed (ck_add_i64 (pos t) (pos n)) _ r h2 in
    let es = ck_add_i64-pos b n s e in
    let eu = ck_add_i64-pos t n u e' in
    let next : phase_sums false (pos a) (pos (b + n)) (pos (t + n)) xs ≡ some r =
      rw (sym es, sym eu) h3 in
    let m = phase_sums-Summed false a (b + n) (t + n) xs r next in
    record {
      cpu = m.cpu;
      io = m.io;
      total = m.total;
      parts = m.parts;
      balance = omega (arith, m.balance);
    }
phase_sums-Summed false a b t (pos n ∷ xs) r h =
    let (_, h1) = guard_passed (leb_ℤ (pos n) (pos 0)) _ r h in
    let (s, e, h2) = step_passed (ck_add_i64 (pos a) (pos n)) _ r h1 in
    let (u, e', h3) = step_passed (ck_add_i64 (pos t) (pos n)) _ r h2 in
    let es = ck_add_i64-pos a n s e in
    let eu = ck_add_i64-pos t n u e' in
    let next : phase_sums true (pos (a + n)) (pos b) (pos (t + n)) xs ≡ some r =
      rw (sym es, sym eu) h3 in
    let m = phase_sums-Summed true (a + n) b (t + n) xs r next in
    record {
      cpu = m.cpu;
      io = m.io;
      total = m.total;
      parts = m.parts;
      balance = omega (arith, m.balance);
    }

-- The latest arrival so far.
abbrev later : ℤ → ℤ → ℤ
later m arrival = if ltb_ℤ m arrival then arrival else m

-- A process that is accepted arrives at a time that is not negative.
arrival-pos : (p : Process) → process_validate p ≡ ok → p.arrival ≡ pos (pos_part p.arrival)
unfolding process_validate
arrival-pos p good = ground arith

burst-positive : (p : Process) (b : ℕ) → process_validate p ≡ ok → p.burst ≡ pos b → 0 < b
unfolding process_validate
burst-positive p b good e =
    let up : 0 < pos_part p.burst = ground arith in omega (arith, up, ap pos_part e)

pub status_passed :
    {A : Type 0} (st : SchedStatus) (next : Option A) (r : A)
    → elim st [ ok ↦ next | _ ↦ none ] ≡ some r
    → (st ≡ ok) × (next ≡ some r)
status_passed ok next r h = (refl, h)
status_passed e_input next r h = cc
status_passed e_usage next r h = cc
status_passed e_io next r h = cc
status_passed e_nomem next r h = cc

eqb→≡ : (a b : ℤ) → eqb_ℤ a b ≡ true → a ≡ b
eqb→≡ a b h = eq_of_parts a b (ground arith)

later-pos : (m k : ℕ) → later (pos m) (pos k) ≡ pos (if ltb m k then k else m)
later-pos m k = ground arith

add-pos : (a b : ℕ) → pos a +ℤ pos b ≡ pos (a + b)
unfolding ◌+ℤ◌
add-pos a b = ground arith

-- One accepted process: its burst and I/O are the sums of its phases.
validate_one-Summed :
    (w : Workload) (p : Process) (m t : ℕ) (r : ℤ × ℤ)
    → validate_one w p (pos m) (pos t) ≡ some r
    → (m' : ℕ) × (b : ℕ) × (i : ℕ) × (r ≡ (pos m', pos (t + b + i)))
      × (p.burst ≡ pos b)
      × (p.io ≡ pos i)
      × (later (pos m) p.arrival ≡ pos m')
      × (0 < b)
unfolding validate_one
validate_one-Summed w p m t r h =
    let (good, h1) = status_passed (process_validate p) _ r h in
    let (sums, e, h2) =
      step_passed (phase_sums false (pos 0) (pos 0) (pos t) (workload_phases w p)) _ r h1 in
    let s = phase_sums-Summed false 0 0 t (workload_phases w p) sums e in
    let (same, h3) =
      guard_passed (p.phase_count % 2 == 0 || not (eqb_ℤ sums.0 p.burst) || not (eqb_ℤ sums.1 p.io))
        _ r h2 in
    let early = arrival-pos p good in
    let burst : sums.0 ≡ p.burst = eqb→≡ sums.0 p.burst (ground arith) in
    let io : sums.1 ≡ p.io = eqb→≡ sums.1 p.io (ground arith) in
    let k = pos_part p.arrival in
    let arrival : later (pos m) p.arrival ≡ pos (if ltb m k then k else m) =
      ap (later (pos m)) early ∙ later-pos m k in
    let out : (later (pos m) p.arrival, sums.2) ≡ r = cc in
    let total : sums.2 ≡ pos (t + s.cpu + s.io) =
      ap (λ (x : ℤ × ℤ × ℤ). x.2) s.parts ∙ ap pos (omega (arith, s.balance)) in
    (
      if ltb m k then k else m,
      s.cpu,
      s.io,
      sym out ∙ ap₂ (λ (x y : ℤ). (x, y)) arrival total,
      sym burst ∙ ap (λ (x : ℤ × ℤ × ℤ). x.0) s.parts,
      sym io ∙ ap (λ (x : ℤ × ℤ × ℤ). x.1) s.parts,
      arrival,
      burst-positive p s.cpu good (sym burst ∙ ap (λ (x : ℤ × ℤ × ℤ). x.0) s.parts),
    )

validate_all-horizon :
    (w : Workload) (ps : List Process) (m t : ℕ) (r : ℤ × ℤ)
    → validate_all w ps (pos m) (pos t) ≡ some r
    → (a : ℕ) × (b : ℕ) × (r ≡ (pos a, pos b))
      × (horizon_from (pos m) (pos t) ps ≡ pos (a + b))
      × (t + length ps ≤ b)
unfolding validate_all horizon_from
validate_all-horizon w [] m t r h =
    let e : (pos m, pos t) ≡ r = cc in (m, t, sym e, add-pos m t, omega arith)
validate_all-horizon w (p ∷ ps) m t r h =
    let (q, e, h1) = step_passed (validate_one w p (pos m) (pos t)) _ r h in
    let (m', b, i, parts, burst, io, arrival, busy) = validate_one-Summed w p m t q e in
    let next : validate_all w ps (pos m') (pos (t + b + i)) ≡ some r =
      subst (λ (x : ℤ × ℤ). validate_all w ps x.0 x.1 ≡ some r) parts h1 in
    let (a, c, here, horizon, grows) = validate_all-horizon w ps m' (t + b + i) r next in
    let sum : pos t +ℤ (p.burst +ℤ p.io) ≡ pos (t + b + i) =
      rw (burst, io, add-pos b i, add-pos t (b + i)) (ap pos (omega arith)) in
    (a, c, here, ap₂ (λ x y. horizon_from x y ps) arrival sum ∙ horizon, omega (arith, grows, busy))

-- A status of `ok` has passed each test and each step.
pub unrejected :
    (b : Bool) (next : SchedStatus) → (if b then e_input else next) ≡ ok → (b ≡ false) × (next ≡ ok)
unrejected true next h = cc
unrejected false next h = (refl, h)

pub accepted :
    {A : Type 0} (o : Option A) (next : A → SchedStatus)
    → elim o [ none ↦ e_input | some a ↦ next a ] ≡ ok
    → (a : A) × (o ≡ some a) × (next a ≡ ok)
accepted none next h = cc
accepted (some a) next h = (a, refl, h)

ck_add_i64-fits :
    (a b : ℕ) (c : ℤ) → ck_add_i64 (pos a) (pos b) ≡ some c → 0 < b → a + b ≤ int64_max
unfolding ck_add_i64 ◌+ℤ◌ ◌-ℤ◌
ck_add_i64-fits a b c h busy = ground arith

-- Where `workload_validate` returns `ok`, the horizon that `workload_horizon` adds up without a check is
-- not negative and fits in 64 bits.
pub workload_validate-horizon :
    (alloc : ℕ → Bool) (w : Workload)
    → workload_validate alloc w ≡ ok
    → (h : ℕ) × (workload_horizon w ≡ pos h) × IsI64 (pos h)
unfolding workload_validate workload_horizon
workload_validate-horizon alloc w h =
    let (busy, h1) = unrejected (length w.items == 0) _ h in
    let (r, e, h2) = accepted (validate_all w w.items (pos 0) (pos 0)) _ h1 in
    let (sum, added, _) = accepted (ck_add_i64 r.0 r.1) _ h2 in
    let (a, b, parts, horizon, grows) = validate_all-horizon w w.items 0 0 r e in
    let there : ck_add_i64 (pos a) (pos b) ≡ some sum =
      subst (λ (x : ℤ × ℤ). ck_add_i64 x.0 x.1 ≡ some sum) parts added in
    let some_work : 0 < b = ground (arith, busy, grows) in
    (a + b, horizon, (ck_add_i64-fits a b sum there some_work, omega arith))
