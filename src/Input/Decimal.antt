-- ===== src/Input/Decimal.antt =====
-- src/io/input.c: `parse_i64` reads what decimal notation writes, and nothing outside 64 bits.
use native.Mathlib.Nat.{div-add-mod', mod-lt}
use preemptive_and_non_preem.Base.{
  ℕ, zero, suc, ◌+◌, ◌-◌, ◌*◌, ◌/◌, ◌%◌, ◌<◌, ◌≤◌, ◌≡◌, refl, ap, ◌∙◌, true, false, none, some, [],
  ◌∷◌, ◌++◌, arith, ltb, ◌==◌, if◌then◌else◌, if_holds,
}
use preemptive_and_non_preem.Base.Int.{ℤ, pos, negsuc, sub_ℕ, int64_max, IsI64}
use preemptive_and_non_preem.Input.Text.{
  Text, isspace, isdigit, skip_spaces, scan_digits, strtoll, is_empty, parse_i64,
}

-- Decimal notation, with `fuel` digits at most but one.
unfoldable pub show_digits : ℕ → ℕ → Text
show_digits zero n = (48 + n % 10) ∷ []
show_digits (suc fuel) n =
    let front = show_digits fuel (n / 10) in
    if ltb n 10 then (48 + n) ∷ [] else front ++ (48 + n % 10) ∷ []

unfoldable pub show_ℕ : ℕ → Text
unfolding show_digits
show_ℕ n = show_digits n n

unfoldable pub show_ℤ : ℤ → Text
unfolding show_ℕ
show_ℤ (pos n) = show_ℕ n
show_ℤ (negsuc n) = b'-' ∷ show_ℕ (suc n)

none_is_some : {x : ℤ} → none ≡ some x → ⊥
none_is_some h = cc

true_is_false : true ≡ false → ⊥
true_is_false h = cc

abbrev AllDigits : Text → Type 0
AllDigits [] = Unit {0}
AllDigits (c ∷ s) = (isdigit c ≡ true) × AllDigits s

-- The value of digits after a prefix of value `a`.
unfoldable value_after : ℕ → Text → ℕ
value_after a [] = a
value_after a (c ∷ s) = value_after (a * 10 + (c - 48)) s

value_after-append :
    (a : ℕ) (s : Text) (c : ℕ) → value_after a (s ++ c ∷ []) ≡ value_after a s * 10 + (c - 48)
unfolding value_after
value_after-append a [] c = refl
value_after-append a (x ∷ s) c = value_after-append (a * 10 + (x - 48)) s c

AllDigits-append : (s : Text) (c : ℕ) → AllDigits s → isdigit c ≡ true → AllDigits (s ++ c ∷ [])
AllDigits-append [] c h d = (d, tt)
AllDigits-append (x ∷ s) c (h, hs) d = (h, AllDigits-append s c hs d)

isdigit-digit : (d : ℕ) → d < 10 → isdigit (48 + d) ≡ true
isdigit-digit d h = ground (arith, h)

busy-append : (s : Text) (c : ℕ) → is_empty (s ++ c ∷ []) ≡ false
busy-append [] c = refl
busy-append (x ∷ s) c = refl

abbrev Shows : ℕ → Text → Type 0
Shows n s = AllDigits s × (value_after 0 s ≡ n) × (is_empty s ≡ false)

last_digit : (n : ℕ) (s : Text) → Shows (n / 10) s → Shows n (s ++ (48 + n % 10) ∷ [])
last_digit n s (digits, whole, busy) =
    let d = isdigit-digit (n % 10) (mod-lt n (omega arith)) in
    let v = value_after-append 0 s (48 + n % 10) in
    (
      AllDigits-append s (48 + n % 10) digits d,
      omega (arith, v, whole, div-add-mod' n 10),
      busy-append s (48 + n % 10),
    )

show_digits-Shows : (fuel n : ℕ) → n ≤ fuel → Shows n (show_digits fuel n)
unfolding show_digits value_after
show_digits-Shows zero n h =
    ((isdigit-digit (n % 10) (mod-lt n (omega arith)), tt), omega (arith, h), refl)
show_digits-Shows (suc fuel) n h =
    if_holds (Shows n) (ltb n 10)
      (λ small. ((isdigit-digit n (ground (arith, small)), tt), omega arith, refl))
      (λ large.
        last_digit n _
          (show_digits-Shows fuel (n / 10) (ground (arith, large, h, div-add-mod' n 10))))

show_ℕ-Shows : (n : ℕ) → Shows n (show_ℕ n)
unfolding show_ℕ
show_ℕ-Shows n = show_digits-Shows n n (omega arith)

pub show_ℤ-busy : (x : ℤ) → is_empty (show_ℤ x) ≡ false
unfolding show_ℤ
show_ℤ-busy (pos n) = (show_ℕ-Shows n).2
show_ℤ-busy (negsuc n) = refl

scan_digits-all : (a : ℕ) (s : Text) → AllDigits s → scan_digits a s ≡ (value_after a s, [])
unfolding scan_digits value_after
scan_digits-all a [] h = refl
scan_digits-all a (c ∷ s) (d, h) = rw d (scan_digits-all (a * 10 + (c - 48)) s h)

digit_tests :
    (c : ℕ) → isdigit c ≡ true → (isspace c ≡ false) × ((c == b'-') ≡ false) × ((c == b'+') ≡ false)
digit_tests c d = (ground (arith, d), ground (arith, d), ground (arith, d))

parse_digits : (n : ℕ) (s : Text) → Shows n s → n ≤ int64_max → parse_i64 s ≡ some (pos n)
unfolding parse_i64 strtoll skip_spaces value_after
parse_digits n [] (h, v, busy) fits = absurd (true_is_false busy)
parse_digits n (c ∷ s) ((d, h), v, busy) fits =
    let (space, minus, plus) = digit_tests c d in
    let all = scan_digits-all (0 + (c - 48)) s h in
    let here : value_after (0 + (c - 48)) s ≡ n = v in
    let small : ltb int64_max n ≡ false = ground (arith, fits) in
    rw (space, minus, plus, d, all, here, small) refl

parse_negative :
    (n : ℕ) (s : Text) → Shows n s → n ≤ int64_max + 1 → parse_i64 (b'-' ∷ s) ≡ some (sub_ℕ 0 n)
unfolding parse_i64 strtoll skip_spaces value_after
parse_negative n [] (h, v, busy) fits = absurd (true_is_false busy)
parse_negative n (c ∷ s) ((d, h), v, busy) fits =
    let all = scan_digits-all (0 + (c - 48)) s h in
    let here : value_after (0 + (c - 48)) s ≡ n = v in
    let small : ltb (int64_max + 1) n ≡ false = ground (arith, fits) in
    rw (d, all, here, small) refl

-- For every `int64_t`: `parse_i64` reads its decimal notation, with a minus sign where it is negative,
-- back as the same number.
pub parse_i64-show_ℤ : (x : ℤ) → IsI64 x → parse_i64 (show_ℤ x) ≡ some x
unfolding show_ℤ
parse_i64-show_ℤ (pos n) (fits, _) = parse_digits n (show_ℕ n) (show_ℕ-Shows n) fits
parse_i64-show_ℤ (negsuc n) (_, fits) =
    parse_negative (suc n) (show_ℕ (suc n)) (show_ℕ-Shows (suc n)) fits ∙ ap some (ground arith)

parse_large : (n : ℕ) (s : Text) → Shows n s → int64_max < n → parse_i64 s ≡ none
unfolding parse_i64 strtoll skip_spaces value_after
parse_large n [] (h, v, busy) big = absurd (true_is_false busy)
parse_large n (c ∷ s) ((d, h), v, busy) big =
    let (space, minus, plus) = digit_tests c d in
    let all = scan_digits-all (0 + (c - 48)) s h in
    let here : value_after (0 + (c - 48)) s ≡ n = v in
    let large : ltb int64_max n ≡ true = ground (arith, big) in
    rw (space, minus, plus, d, all, here, large) refl

parse_large_negative :
    (n : ℕ) (s : Text) → Shows n s → int64_max + 1 < n → parse_i64 (b'-' ∷ s) ≡ none
unfolding parse_i64 strtoll skip_spaces value_after
parse_large_negative n [] (h, v, busy) big = absurd (true_is_false busy)
parse_large_negative n (c ∷ s) ((d, h), v, busy) big =
    let all = scan_digits-all (0 + (c - 48)) s h in
    let here : value_after (0 + (c - 48)) s ≡ n = v in
    let large : ltb (int64_max + 1) n ≡ true = ground (arith, big) in rw (d, all, here, large) refl

-- For every integer that does not fit in 64 bits: `parse_i64` refuses its decimal notation.
pub parse_i64-refuses : (x : ℤ) → ¬ IsI64 x → parse_i64 (show_ℤ x) ≡ none
unfolding show_ℤ
parse_i64-refuses (pos n) out = parse_large n (show_ℕ n) (show_ℕ-Shows n) (ground (arith, out))
parse_i64-refuses (negsuc n) out =
    parse_large_negative (suc n) (show_ℕ (suc n)) (show_ℕ-Shows (suc n)) (ground (arith, out))
