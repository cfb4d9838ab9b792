-- ===== src/Workload/Distinct.antt =====
-- src/engine/workload.c: the check of `workload_validate` for pids that occur twice.
use preemptive_and_non_preem.Base.{
  ℕ, zero, suc, ◌+◌, ◌<◌, ◌≤◌, ◌≡◌, ◌≢◌, refl, ap, Bool, true, false, not, some, List, [], ◌∷◌,
  length, arith, Bool-cases, inl, inr, if◌then◌else◌, if_holds, step_passed, ◌==◌, ◌*◌,
}
use preemptive_and_non_preem.Base.Int.{ℤ, pos, neg_part, leb_ℤ, ltb_ℤ, eqb_ℤ, eq_of_parts}
use preemptive_and_non_preem.Base.Sort.{insert, qsort, AllAfter, InOrder, qsort-InOrder}
use preemptive_and_non_preem.Util.Checked.{ck_add_i64}
use preemptive_and_non_preem.Core.{Process, Workload, ok, e_input, e_nomem}
use preemptive_and_non_preem.Policy.{proc_at, HasDistinctPids}
use preemptive_and_non_preem.Workload.{
  process_validate, validate_one, validate_all, pids_of, has_repeat, workload_validate, size_i64,
}
use preemptive_and_non_preem.Workload.Phases.{unrejected, accepted, status_passed}

-- How often an integer occurs.
unfoldable times : ℤ → List ℤ → ℕ
times z [] = 0
times z (x ∷ xs) = (if eqb_ℤ z x then 1 else 0) + times z xs

abbrev AllAbove : ℤ → List ℤ → Type 0
AllAbove = AllAfter leb_ℤ

abbrev IsSorted : List ℤ → Type 0
IsSorted = InOrder leb_ℤ

qsort-IsSorted : (xs : List ℤ) → IsSorted (qsort leb_ℤ xs)
qsort-IsSorted =
    qsort-InOrder leb_ℤ (λ x y z h k. ground (arith, h, k)) (λ x y h. ground (arith, h))

times-insert :
    (z x : ℤ) (ys : List ℤ)
    → times z (insert leb_ℤ x ys) ≡ (if eqb_ℤ z x then 1 else 0) + times z ys
unfolding insert times
times-insert z x [] = refl
times-insert z x (y ∷ ys) =
    let ih = times-insert z x ys in
    if_holds
      (λ r. times z r ≡ (if eqb_ℤ z x then 1 else 0) + ((if eqb_ℤ z y then 1 else 0) + times z ys))
      (leb_ℤ x y) (λ _. refl) (λ _. omega (arith, ih))

times-qsort : (z : ℤ) (xs : List ℤ) → times z (qsort leb_ℤ xs) ≡ times z xs
unfolding qsort times
times-qsort z [] = refl
times-qsort z (x ∷ xs) = omega (arith, times-insert z x (qsort leb_ℤ xs), times-qsort z xs)

-- What is above a list that is not below it does not occur in it.
times-above : (z y : ℤ) (ys : List ℤ) → ltb_ℤ z y ≡ true → AllAbove y ys → times z ys ≡ 0
unfolding times
times-above z y [] h above = refl
times-above z y (x ∷ xs) h (le, above) =
    let ih = times-above z y xs h above in ground (arith, h, le, ih)

-- A sorted list without equal neighbours has no integer twice.
times-has_repeat : (z : ℤ) (xs : List ℤ) → IsSorted xs → has_repeat xs ≡ false → times z xs ≤ 1
unfolding times has_repeat
times-has_repeat z [] h fresh = omega arith
times-has_repeat z (x ∷ []) h fresh = ground arith
times-has_repeat z (x ∷ y ∷ ys) ((le, above_x), (above_y, h)) fresh =
    elim (Bool-cases (eqb_ℤ y x)) [
      | inl same ↦ absurd (ground (arith, fresh, same))
      | inr apart ↦
          let ih = times-has_repeat z (y ∷ ys) (above_y, h) (ground (arith, fresh, apart)) in
          let later : (ltb_ℤ z y ≡ true) → times z ys ≡ 0 = λ lt. times-above z y ys lt above_y in
          ground (arith, ih, later, le, apart)
    ]

-- Where a pid stands, it occurs; where it stands twice, it occurs twice.
times-pid : (ps : List Process) (i : ℕ) → i < length ps → 0 < times (proc_at ps i).pid (pids_of ps)
unfolding times pids_of
times-pid [] i h = absurd (omega arith)
times-pid (p ∷ ps) zero h = ground arith
times-pid (p ∷ ps) (suc i) h = let ih = times-pid ps i (omega arith) in omega (arith, ih)

times-pids :
    (ps : List Process) (i j : ℕ)
    → i < length ps
    → j < length ps
    → i ≢ j
    → eqb_ℤ (proc_at ps i).pid (proc_at ps j).pid ≡ true
    → 1 < times (proc_at ps i).pid (pids_of ps)
unfolding times pids_of
times-pids [] i j h h' apart same = absurd (omega arith)
times-pids (p ∷ ps) zero zero h h' apart same = absurd (apart refl)
times-pids (p ∷ ps) zero (suc j) h h' apart same =
    let e : p.pid ≡ (proc_at ps j).pid =
      eq_of_parts p.pid (proc_at ps j).pid (ground (arith, same)) in
    let here : 0 < times p.pid (pids_of ps) =
      omega (arith, ap (λ z. times z (pids_of ps)) e, times-pid ps j (omega arith)) in
    ground (arith, here)
times-pids (p ∷ ps) (suc i) zero h h' apart same =
    let here = times-pid ps i (omega arith) in ground (arith, here, same)
times-pids (p ∷ ps) (suc i) (suc j) h h' apart same =
    let ih = times-pids ps i j (omega arith) (omega arith) (λ e. apart (ap suc e)) same in
    omega (arith, ih)

-- Each process that `validate_all` passes has a pid that is not negative.
validated_pid : (p : Process) → process_validate p ≡ ok → neg_part p.pid ≡ 0
unfolding process_validate
validated_pid p h = ground (arith, h)

validate_one-pid :
    (w : Workload) (p : Process) (m t : ℤ) (r : ℤ × ℤ)
    → validate_one w p m t ≡ some r
    → neg_part p.pid ≡ 0
unfolding validate_one
validate_one-pid w p m t r h =
    let (good, _) = status_passed (process_validate p) _ r h in validated_pid p good

validate_all-pids :
    (w : Workload) (ps : List Process) (m t : ℤ) (r : ℤ × ℤ) (i : ℕ)
    → validate_all w ps m t ≡ some r
    → i < length ps
    → neg_part (proc_at ps i).pid ≡ 0
unfolding validate_all
validate_all-pids w [] m t r i h lt = absurd (omega arith)
validate_all-pids w (p ∷ ps) m t r zero h lt =
    let (q, e, h1) = step_passed (validate_one w p m t) _ r h in validate_one-pid w p m t q e
validate_all-pids w (p ∷ ps) m t r (suc i) h lt =
    let (q, e, h1) = step_passed (validate_one w p m t) _ r h in
    validate_all-pids w ps q.0 q.1 r i h1 (omega arith)

no_repeat : (a b : Bool) → (if a then e_nomem else if b then e_input else ok) ≡ ok → b ≡ false
no_repeat true b h = cc
no_repeat false true h = cc
no_repeat false false h = refl

-- For any allocator, on a workload that `workload_validate` accepts: no two processes have the same pid.
pub workload_validate-HasDistinctPids :
    (alloc : ℕ → Bool) (w : Workload) → workload_validate alloc w ≡ ok → HasDistinctPids w.items
unfolding workload_validate
workload_validate-HasDistinctPids alloc w h x y in_x in_y apart same =
    let (busy, h1) = unrejected (length w.items == 0) _ h in
    let (r, e, h2) = accepted (validate_all w w.items (pos 0) (pos 0)) _ h1 in
    let (sum, added, h3) = accepted (ck_add_i64 r.0 r.1) _ h2 in
    let sorted = qsort leb_ℤ (pids_of w.items) in
    let fresh = no_repeat (not (alloc (length w.items * size_i64))) (has_repeat sorted) h3 in
    let z = (proc_at w.items x).pid in
    let plus_x = validate_all-pids w w.items (pos 0) (pos 0) r x e in_x in
    let plus_y = validate_all-pids w w.items (pos 0) (pos 0) r y e in_y in
    omega (
      arith,
      times-pids w.items x y in_x in_y apart (ground (arith, plus_x, plus_y, same)),
      times-qsort z (pids_of w.items),
      times-has_repeat z sorted (qsort-IsSorted (pids_of w.items)) fresh,
    )
