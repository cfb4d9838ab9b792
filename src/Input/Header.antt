-- ===== src/Input/Header.antt =====
-- src/io/input.c: what an accepted header and its rows look like.
use mathlib.Core.Option
use preemptive_and_non_preem.Base.{
  ℕ, zero, suc, ◌+◌, ◌<◌, ◌≤◌, ◌≡◌, refl, sym, ap, ◌∙◌, Bool, true, false, not, ◌&&◌, some, List,
  [], ◌∷◌, arith, ◌==◌, if◌then◌else◌, length, get_or, update, step_passed, guard_passed,
  Bool-cases, inl, inr, ==→≡,
}
use preemptive_and_non_preem.Base.Weight.{weigh, count, indicator}
use preemptive_and_non_preem.Input.Text.{Text}
use preemptive_and_non_preem.Input.Csv.{
  column_index, header_fields, misses_required, parse_header, columns, col_burst, col_bursts,
}

abbrev bit : Bool → ℕ
bit b = if b then 1 else 0

bit-update :
    (seen : ℕ → Bool) (c x : ℕ)
    → seen c ≡ false
    → bit (update seen c true x) ≡ bit (seen x) + indicator x c
bit-update seen c x fresh = elim (Bool-cases (c == x)) [
  | inl e ↦
      let same : c ≡ x = ==→≡ {a = c} {b = x} e in
      let not_seen : seen x ≡ false = ap seen (sym same) ∙ fresh in rw (e, not_seen) refl
  | inr e ↦ rw e (omega arith)
]

-- The columns of the fields, and which columns have been seen after them.
record Assigned (seen : ℕ → Bool) (names : List Text) (r : List ℕ × (ℕ → Bool)) : Type 0 where
  size : length r.0 ≡ length names
  marks : (c : ℕ) → bit (seen c) + count c r.0 ≡ bit (r.1 c)
  named : (i : ℕ) → i < length names → column_index (get_or names i []) ≡ some (get_or r.0 i 0)

named_cons :
    (name : Text) (c : ℕ) (names : List Text) (cols : List ℕ)
    → column_index name ≡ some c
    → ((i : ℕ) → i < length names → column_index (get_or names i []) ≡ some (get_or cols i 0))
    → (i : ℕ) → i < length (name ∷ names)
    → column_index (get_or (name ∷ names) i []) ≡ some (get_or (c ∷ cols) i 0)
named_cons name c names cols here rest zero lt = here
named_cons name c names cols here rest (suc i) lt = rest i (omega arith)

header_fields-Assigned :
    (seen : ℕ → Bool) (names : List Text) (r : List ℕ × (ℕ → Bool))
    → header_fields seen names ≡ some r
    → Assigned seen names r
unfolding header_fields weigh
header_fields-Assigned seen [] r h =
    let e : ([], seen) ≡ r = Option.some-injective _ _ h in
    rw (sym e)
      (record { size = refl; marks = λ c. omega arith; named = λ i lt. absurd (omega (arith, lt)) })
header_fields-Assigned seen (name ∷ names) r h =
    let (c, here, h1) = step_passed (column_index name) _ r h in
    let (fresh, h2) = guard_passed (seen c) _ r h1 in
    let (t, rest, h3) = step_passed (header_fields (update seen c true) names) _ r h2 in
    let ih = header_fields-Assigned (update seen c true) names t rest in
    let e : (c ∷ t.0, t.1) ≡ r = Option.some-injective _ _ h3 in
    rw (sym e) (record {
      size = omega (arith, ih.size);
      marks = λ x. omega (arith, ih.marks x, bit-update seen c x fresh);
      named = named_cons name c names t.0 here ih.named;
    })

bit-le : (b : Bool) → bit b ≤ 1
bit-le b = ground arith

-- For an accepted header: each field has the column of its name, no column has two fields, `pid` and
-- `arrival` have one each, and `burst` or `bursts` has one.
pub parse_header-Columns :
    (names : List Text) (cols : List ℕ)
    → parse_header names ≡ some cols
    → (length cols ≡ length names)
      × ((i : ℕ) → i < length names → column_index (get_or names i []) ≡ some (get_or cols i 0))
      × ((c : ℕ) → count c cols ≤ 1)
      × (count 0 cols ≡ 1)
      × (count 1 cols ≡ 1)
      × (0 < count col_burst cols + count col_bursts cols)
unfolding parse_header misses_required
parse_header-Columns names cols h =
    let (t, fields, h1) = step_passed (header_fields (λ c. false) names) _ cols h in
    let (required, h2) = guard_passed (misses_required t.1 0 columns) _ cols h1 in
    let (bursts, h3) = guard_passed (not (t.1 col_burst) && not (t.1 col_bursts)) _ cols h2 in
    let a = header_fields-Assigned (λ c. false) names t fields in
    let e : t.0 ≡ cols = Option.some-injective _ _ h3 in
    rw (sym e) (
      a.size,
      a.named,
      λ c. omega (arith, a.marks c, bit-le (t.1 c)),
      (let m = a.marks 0 in ground (arith, m, required)),
      (let m = a.marks 1 in ground (arith, m, required)),
      (let m2 = a.marks 2 in let m3 = a.marks 3 in ground (arith, m2, m3, bursts)),
    )
