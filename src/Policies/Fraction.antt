-- ===== src/Policies/Fraction.antt =====
-- src/policies/hrrn.c: `cmp_fraction`, which compares two fractions without a product that could overflow.
use mathlib.Core.Path.{ap₂}
use native.Mathlib.Nat.{mul-le-mul_right, div-add-mod, mod-lt}
use preemptive_and_non_preem.Base.{
  ℕ, zero, suc, ◌+◌, ◌*◌, ◌/◌, ◌%◌, ◌<◌, ◌≤◌, ◌≡◌, sym, ap, ◌∙◌, Bool, true, false, not, ◌||◌,
  Option, none, some, arith, ltb, ◌==◌, if◌then◌else◌, if_holds, inl, inr, Bool-cases, ==→≡,
}
use preemptive_and_non_preem.Policy.{Sign, before, same, after}

-- The product with `sign`, which is 1 where `positive` holds and -1 where not.
abbrev pub signed : Bool → Sign → Sign
signed true s = s
signed false before = after
signed false same = same
signed false after = before

-- `(ra != 0) - (rc != 0)`
abbrev pub remainder_sign : ℕ → ℕ → Sign
remainder_sign ra rc =
    if ra == 0 then (if rc == 0 then same else before) else (if rc == 0 then after else same)

-- The loop on fuel; `none` means that it ran out.
unfoldable pub cmp_fraction : ℕ → Bool → ℕ → ℕ → ℕ → ℕ → Option Sign
cmp_fraction zero positive a b c d = none
cmp_fraction (suc fuel) positive a b c d =
    let rest = cmp_fraction fuel (not positive) b (a % b) d (c % d) in
    if not (a / b == c / d)
    then some (signed positive (if ltb (a / b) (c / d) then before else after))
    else if a % b == 0 || c % d == 0
    then some (signed positive (remainder_sign (a % b) (c % d)))
    else rest

-- The sign of `x - y`.
abbrev pub sign_of : ℕ → ℕ → Sign
sign_of x y = if ltb x y then before else if ltb y x then after else same

signed-flip :
    (positive : Bool) (x y : ℕ)
    → signed (not positive) (sign_of y x) ≡ signed positive (sign_of x y)
signed-flip positive x y = ground arith

-- Whole parts that differ decide.
whole-less :
    (a b c d q q' r r' : ℕ)
    → a ≡ b * q + r
    → r < b
    → c ≡ d * q' + r'
    → 0 < d
    → q < q'
    → a * d < c * b
whole-less a b c d q q' r r' ea small ec positive less =
    let left : a * d ≡ (b * q + r) * d = ap (λ (x : ℕ). x * d) ea in
    let right : c * b ≡ (d * q' + r') * b = ap (λ (x : ℕ). x * b) ec in
    let below : suc r * d ≤ b * d = mul-le-mul_right d small in
    let whole : suc q * (b * d) ≤ q' * (b * d) = mul-le-mul_right (b * d) less in
    grind (arith, left, right, below, whole)

-- Equal whole parts leave the remainders.
remainders :
    (a b c d q r r' : ℕ)
    → a ≡ b * q + r
    → c ≡ d * q + r'
    → sign_of (a * d) (c * b) ≡ sign_of (r * d) (r' * b)
remainders a b c d q r r' ea ec =
    let left : a * d ≡ q * (b * d) + r * d = ap (λ (x : ℕ). x * d) ea ∙ omega arith in
    let right : c * b ≡ q * (b * d) + r' * b = ap (λ (x : ℕ). x * b) ec ∙ omega arith in
    ground (arith, left, right)

-- A positive times a positive.
product-positive : (x y : ℕ) → 0 < x → 0 < y → 0 < x * y
product-positive x y hx hy = let h : 1 * y ≤ x * y = mul-le-mul_right y hx in omega (arith, h)

-- Where a remainder is 0, the other decides.
last_remainders :
    (b d r r' : ℕ)
    → 0 < b
    → 0 < d
    → (r == 0 || r' == 0) ≡ true
    → remainder_sign r r' ≡ sign_of (r * d) (r' * b)
last_remainders b d r r' hb hd h = elim (Bool-cases (r == 0)) [
  | inl none_left ↦
      let gone : r ≡ 0 = ==→≡ none_left in
      let left : r * d ≡ 0 = ap (λ (x : ℕ). x * d) gone ∙ omega arith in
      elim (Bool-cases (r' == 0)) [
        | inl none_right ↦
            let gone' : r' ≡ 0 = ==→≡ none_right in
            let right : r' * b ≡ 0 = ap (λ (x : ℕ). x * b) gone' ∙ omega arith in
            ground (arith, none_left, none_right, left, right)
        | inr some_right ↦
            let right : 0 < r' * b = product-positive r' b (ground (arith, some_right)) hb in
            ground (arith, none_left, some_right, left, right)
      ]
  | inr some_left ↦
      let none_right : (r' == 0) ≡ true = ground (arith, some_left, h) in
      let gone' : r' ≡ 0 = ==→≡ none_right in
      let right : r' * b ≡ 0 = ap (λ (x : ℕ). x * b) gone' ∙ omega arith in
      let left : 0 < r * d = product-positive r d (ground (arith, some_left)) hd in
      ground (arith, some_left, none_right, left, right)
]

-- Where the whole parts differ, they decide.
wholes :
    (a b c d q q' r r' : ℕ)
    → a ≡ b * q + r
    → c ≡ d * q' + r'
    → r < b
    → r' < d
    → (q == q') ≡ false
    → (if ltb q q' then before else after) ≡ sign_of (a * d) (c * b)
wholes a b c d q q' r r' ea ec sa sc differ = elim (Bool-cases (ltb q q')) [
  | inl less ↦
      let less' : a * d < c * b =
        whole-less a b c d q q' r r' ea sa ec (omega (arith, sc)) (ground (arith, less)) in
      ground (arith, less, less')
  | inr more ↦
      let more' : c * b < a * d =
        whole-less c d a b q' q r' r ec sc ea (omega (arith, sa)) (ground (arith, more, differ)) in
      ground (arith, more, more')
]

-- With fuel above the first denominator, `cmp_fraction` returns, for positive denominators, the sign of
-- `a / b - c / d`, which is that of the cross products, multiplied by the sign that it is given.
pub cmp_fraction-exact :
    (fuel : ℕ) (positive : Bool) (a b c d : ℕ)
    → 0 < b
    → 0 < d
    → b < fuel
    → cmp_fraction fuel positive a b c d ≡ some (signed positive (sign_of (a * d) (c * b)))
unfolding cmp_fraction
cmp_fraction-exact zero positive a b c d hb hd enough = absurd (omega (arith, enough))
cmp_fraction-exact (suc fuel) positive a b c d hb hd enough =
    let ea : a ≡ b * (a / b) + a % b = sym (div-add-mod a b) in
    let ec : c ≡ d * (c / d) + c % d = sym (div-add-mod c d) in
    let sa : a % b < b = mod-lt a hb in
    let sc : c % d < d = mod-lt c hd in
    if_holds (λ o. o ≡ some (signed positive (sign_of (a * d) (c * b)))) (not (a / b == c / d))
      (λ differ.
        ap (λ (x : Sign). some (signed positive x))
          (wholes a b c d (a / b) (c / d) (a % b) (c % d) ea ec sa sc (ground (arith, differ))))
      (λ alike.
        let q : a / b ≡ c / d = ground arith in
        let ec' : c ≡ d * (a / b) + c % d = ec ∙ ap (λ (x : ℕ). d * x + c % d) (sym q) in
        let left = remainders a b c d (a / b) (a % b) (c % d) ea ec' in
        if_holds (λ o. o ≡ some (signed positive (sign_of (a * d) (c * b))))
          (a % b == 0 || c % d == 0)
          (λ exact.
            ap (λ (x : Sign). some (signed positive x))
              (last_remainders b d (a % b) (c % d) hb hd exact ∙ sym left))
          (λ more.
            let again =
              cmp_fraction-exact fuel (not positive) b (a % b) d (c % d) (ground (arith, more))
                (ground (arith, more)) (omega (arith, enough, sa)) in
            let turn = signed-flip positive (d * (a % b)) (b * (c % d)) in
            let swap : sign_of (d * (a % b)) (b * (c % d)) ≡ sign_of (a % b * d) (c % d * b) =
              let one : d * (a % b) ≡ a % b * d = omega arith in
              let two : b * (c % d) ≡ c % d * b = omega arith in
              ap₂ (λ (x y : ℕ). sign_of x y) one two in
            again ∙ ap some (turn ∙ ap (signed positive) (swap ∙ sym left))))
