-- ===== src/Input/Accepted.antt =====
-- src/io/input.c with src/engine/workload.c: what is read into a workload is valid, process by process.
use mathlib.Core.Option
use mathlib.Core.Path.{subst}
use preemptive_and_non_preem.Base.{
  ℕ, ◌+◌, ◌-◌, ◌≡◌, refl, Bool, true, false, not, ◌&&◌, ◌||◌, some, List, [], ◌∷◌, ◌++◌, ltb, ◌==◌,
  ◌%◌, if_holds, Option_holds, arith, length, step_passed, guard_passed, sym, contrary,
}
use preemptive_and_non_preem.Base.Int.{ℤ, pos, ltb_ℤ, leb_ℤ, ◌+ℤ◌, ◌-ℤ◌}
use preemptive_and_non_preem.Util.Checked.{ck_add_i64}
use preemptive_and_non_preem.Core.{
  Process, Workload, SchedStatus, ok, e_input, e_usage, e_io, e_nomem, size_max, process_make,
}
use preemptive_and_non_preem.Workload.{
  process_validate, push_sums, grow, size_i64, size_process, append_process, workload_push,
  workload_push_phases,
}
use preemptive_and_non_preem.Input.Text.{Text, c_string, trim}
use preemptive_and_non_preem.Input.Csv.{
  Row, row_fields, push_row, parse_row, any_not_positive, head_or, split_fields, parse_header,
}
use preemptive_and_non_preem.Input.Files.{
  Outcome, go_on, stop, row_outcome, skip_bom, is_cut, is_ignored, has_header, csv_line, csv_lines,
}

-- Every process passes `process_validate`.
abbrev pub AllValid : List Process → Type 0
AllValid [] = Unit {0}
AllValid (p ∷ ps) = (process_validate p ≡ ok) × AllValid ps

AllValid-append :
    (ps : List Process) (p : Process)
    → AllValid ps
    → process_validate p ≡ ok
    → AllValid (ps ++ p ∷ [])
AllValid-append [] p h valid = (valid, tt)
AllValid-append (q ∷ ps) p (first, h) valid = (first, AllValid-append ps p h valid)

-- A case distinction on a status.
status_holds :
    {B : Type 0} (P : B → Type 0) (st : SchedStatus) {x : B} {f : SchedStatus → B}
    → (st ≡ ok → P x)
    → ((s : SchedStatus) → P (f s))
    → P (elim st [ ok ↦ x | s ↦ f s ])
status_holds P ok p q = p refl
status_holds P e_input p q = q e_input
status_holds P e_usage p q = q e_usage
status_holds P e_io p q = q e_io
status_holds P e_nomem p q = q e_nomem

sum_positive :
    (a x s : ℤ)
    → ltb_ℤ a (pos 0) ≡ false
    → leb_ℤ x (pos 0) ≡ false
    → ck_add_i64 a x ≡ some s
    → leb_ℤ s (pos 0) ≡ false
unfolding ck_add_i64 ◌+ℤ◌ ◌-ℤ◌
sum_positive a x s h h' e = ground (arith, h, h', e)

-- The CPU time that a push adds up stays positive.
push_sums-positive :
    (is_io : Bool) (cpu io : ℤ) (xs : List ℤ) (r : ℤ × ℤ)
    → leb_ℤ cpu (pos 0) ≡ false
    → push_sums is_io cpu io xs ≡ some r
    → leb_ℤ r.0 (pos 0) ≡ false
unfolding push_sums
push_sums-positive is_io cpu io [] r h e =
    let same : (cpu, io) ≡ r = Option.some-injective _ _ e in rw (sym same) h
push_sums-positive true cpu io (x ∷ xs) r h e =
    let (large, e1) = guard_passed (leb_ℤ x (pos 0)) _ r e in
    let (s, added, e2) = step_passed (ck_add_i64 io x) _ r e1 in
    push_sums-positive false cpu s xs r h e2
push_sums-positive false cpu io (x ∷ xs) r h e =
    let (large, e1) = guard_passed (leb_ℤ x (pos 0)) _ r e in
    let (s, added, e2) = step_passed (ck_add_i64 cpu x) _ r e1 in
    push_sums-positive true s io xs r (sum_positive cpu x s (ground (arith, h)) large added) e2

push_sums-start :
    (xs : List ℤ) (r : ℤ × ℤ)
    → (length xs == 0) ≡ false
    → push_sums false (pos 0) (pos 0) xs ≡ some r
    → leb_ℤ r.0 (pos 0) ≡ false
unfolding push_sums
push_sums-start [] r busy e = absurd (contrary refl busy)
push_sums-start (x ∷ xs) r busy e =
    let (large, e1) = guard_passed (leb_ℤ x (pos 0)) _ r e in
    let (s, added, e2) = step_passed (ck_add_i64 (pos 0) x) _ r e1 in
    push_sums-positive true s (pos 0) xs r (sum_positive (pos 0) x s refl large added) e2

-- Validation does not read the I/O time or the place of the phases, and of the burst only its sign.
same_validity :
    (p : Process) (cpu io : ℤ) (start count : ℕ)
    → process_validate p ≡ ok
    → leb_ℤ cpu (pos 0) ≡ false
    → process_validate (record p { burst = cpu; io = io; phase_start = start; phase_count = count })
      ≡ ok
unfolding process_validate
same_validity p cpu io start count valid large = ground (arith, valid, large)

pub record IsKept (r : SchedStatus × Workload) : Type 0 where
  pub items : AllValid r.1.items

append_process-AllValid :
    (alloc : ℕ → Bool) (w : Workload) (p : Process) (phases : List ℤ) (cpu io : ℤ)
    → AllValid w.items
    → process_validate p ≡ ok
    → leb_ℤ cpu (pos 0) ≡ false
    → IsKept (append_process alloc w p phases cpu io)
unfolding append_process
append_process-AllValid alloc w p phases cpu io h valid large =
    let count = length phases in
    let start = length w.phases in
    if_holds IsKept (ltb (size_max - count) start || length w.items == size_max)
      (λ _. record { items = h })
      (λ _.
        Option_holds IsKept (grow alloc w.phases_cap (start + count) size_i64)
          (record { items = h })
          (λ cap1 _.
            Option_holds IsKept (grow alloc w.cap (length w.items + 1) size_process)
              (record { items = h })
              (λ cap2 _. record {
                items =
                    AllValid-append w.items _ h (same_validity p cpu io start count valid large);
              })))

workload_push_phases-AllValid :
    (alloc : ℕ → Bool) (w : Workload) (p : Process) (phases : List ℤ)
    → AllValid w.items
    → process_validate p ≡ ok
    → IsKept (workload_push_phases alloc w p phases)
unfolding workload_push_phases
workload_push_phases-AllValid alloc w p phases h valid =
    if_holds IsKept (length phases == 0 || length phases % 2 == 0) (λ _. record { items = h })
      (λ busy.
        Option_holds IsKept (push_sums false (pos 0) (pos 0) phases) (record { items = h })
          (λ r e.
            append_process-AllValid alloc w p phases r.0 r.1 h valid
              (push_sums-start phases r (ground (arith, busy)) e)))

push_row-AllValid :
    (alloc : ℕ → Bool) (row : Row) (w : Workload) → AllValid w.items → IsKept (push_row alloc row w)
unfolding push_row workload_push
push_row-AllValid alloc row w h =
    let p = row.process in
    let p' : Process = record p { burst = head_or row.phases p.burst } in
    let some_phases = ltb 0 (length row.phases) in
    let kept : IsKept (e_input, w) = record { items = h } in
    if_holds IsKept (some_phases && length row.phases % 2 == 0) (λ _. kept)
      (λ _.
        if_holds IsKept (some_phases && any_not_positive row.phases) (λ _. kept)
          (λ _.
            if_holds IsKept (not some_phases && not row.have_burst) (λ _. kept)
              (λ _.
                status_holds IsKept (process_validate p') {f = λ s. (s, w)}
                  (λ valid.
                    if_holds IsKept some_phases
                      (λ _. workload_push_phases-AllValid alloc w p' row.phases h valid)
                      (λ _. workload_push_phases-AllValid alloc w p' (p'.burst ∷ []) h valid))
                  (λ s. record { items = h }))))

parse_row-AllValid :
    (alloc : ℕ → Bool) (cols : List ℕ) (fields : List Text) (w : Workload)
    → AllValid w.items
    → IsKept (parse_row alloc cols fields w)
unfolding parse_row
parse_row-AllValid alloc cols fields w h =
    let start : Row = record {
      process = process_make (pos 0) (pos 0) (pos 0);
      phases = [];
      have_burst = false;
    } in
    if_holds IsKept (not (length fields == length cols)) (λ _. record { items = h })
      (λ _.
        Option_holds IsKept (row_fields cols fields start) (record { items = h })
          (λ row _. push_row-AllValid alloc row w h))

-- The workload of an outcome.
abbrev outcome_items : Outcome → List Process
outcome_items (go_on cols w) = w.items
outcome_items (stop st w) = w.items

record IsKeptLine (o : Outcome) : Type 0 where
  items : AllValid (outcome_items o)

row_outcome-AllValid :
    (cols : List ℕ) (r : SchedStatus × Workload) → IsKept r → IsKeptLine (row_outcome cols r)
row_outcome-AllValid cols (ok, w) h = record { items = h.items }
row_outcome-AllValid cols (e_input, w) h = record { items = h.items }
row_outcome-AllValid cols (e_usage, w) h = record { items = h.items }
row_outcome-AllValid cols (e_io, w) h = record { items = h.items }
row_outcome-AllValid cols (e_nomem, w) h = record { items = h.items }

csv_line-AllValid :
    (alloc : ℕ → Bool) (first : Bool) (line : Text) (cols : List ℕ) (w : Workload)
    → AllValid w.items
    → IsKeptLine (csv_line alloc first line cols w)
unfolding csv_line
csv_line-AllValid alloc first line cols w h =
    let buf = c_string line in
    let text = trim (skip_bom first buf) in
    if_holds IsKeptLine (is_cut buf) (λ _. record { items = h })
      (λ _.
        if_holds IsKeptLine (is_ignored text) (λ _. record { items = h })
          (λ _.
            Option_holds IsKeptLine (split_fields text) (record { items = h })
              (λ fields _.
                if_holds IsKeptLine (has_header cols)
                  (λ _.
                    row_outcome-AllValid cols (parse_row alloc cols fields w)
                      (parse_row-AllValid alloc cols fields w h))
                  (λ _.
                    Option_holds IsKeptLine (parse_header fields) (record { items = h })
                      (λ cols' _. record { items = h })))))

pub outcome_holds :
    {B : Type 0} (P : B → Type 0) (o : Outcome) {f : SchedStatus → Workload → B}
    {g : List ℕ → Workload → B}
    → ((st : SchedStatus) (w : Workload) → o ≡ stop st w → P (f st w))
    → ((cols : List ℕ) (w : Workload) → o ≡ go_on cols w → P (g cols w))
    → P (elim o [ stop st w ↦ f st w | go_on cols w ↦ g cols w ])
outcome_holds P (go_on cols w) p q = q cols w refl
outcome_holds P (stop st w) p q = p st w refl

pub csv_lines-AllValid :
    (alloc : ℕ → Bool) (failed first : Bool) (lines : List Text) (cols : List ℕ) (w : Workload)
    → AllValid w.items
    → IsKept (csv_lines alloc failed first lines cols w)
unfolding csv_lines
csv_lines-AllValid alloc failed first [] cols w h =
    if_holds IsKept failed (λ _. record { items = h })
      (λ _.
        if_holds IsKept (not (has_header cols) || length w.items == 0) (λ _. record { items = h })
          (λ _. record { items = h }))
csv_lines-AllValid alloc failed first (line ∷ lines) cols w h =
    let kept = csv_line-AllValid alloc first line cols w h in
    outcome_holds IsKept (csv_line alloc first line cols w)
      (λ st w' e. record { items = (subst IsKeptLine e kept).items })
      (λ cols' w' e.
        csv_lines-AllValid alloc failed false lines cols' w' (subst IsKeptLine e kept).items)
