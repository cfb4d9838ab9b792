-- ===== src/Base/Weight.antt =====
-- Sums of a weight over a list and over the first indices. A count and a length are such sums.
use mathlib.Core.Logic.{∥∥₁_elim}
use mathlib.Core.List.{Permᴰ}
use mathlib.Core.Path.{ap₂}
use native.Mathlib.Nat.{ℕ_set}
use native.Mathlib.Decide.{dec_lt}
use preemptive_and_non_preem.Base.{
  ℕ, zero, suc, ◌+◌, ◌*◌, ◌≤◌, ◌<◌, ◌≡◌, refl, ap, inl, inr, Bool-cases, ◌∙◌, Bool, true, false,
  List, [], ◌∷◌, ◌++◌, Perm, arith, length, ◌==◌, ==→≡, if◌then◌else◌, update,
}

unfoldable pub weigh : (ℕ → ℕ) → List ℕ → ℕ
weigh g [] = 0
weigh g (x ∷ xs) = g x + weigh g xs

-- How often `p` occurs.
abbrev pub indicator : ℕ → ℕ → ℕ
indicator p x = if x == p then 1 else 0

abbrev pub count : ℕ → List ℕ → ℕ
count p xs = weigh (indicator p) xs

Permᴰ-weigh : (g : ℕ → ℕ) {xs ys : List ℕ} → Permᴰ xs ys → weigh g xs ≡ weigh g ys
unfolding weigh
Permᴰ-weigh g Permᴰ.nil = refl
Permᴰ-weigh g (Permᴰ.cons e p) = ap₂ ◌+◌ (ap g e) (Permᴰ-weigh g p)
Permᴰ-weigh g (Permᴰ.swap p q) = omega (arith, ap g p, ap g q)
Permᴰ-weigh g (Permᴰ.trans p q) = Permᴰ-weigh g p ∙ Permᴰ-weigh g q

pub weigh-perm : (g : ℕ → ℕ) {xs ys : List ℕ} → Perm xs ys → weigh g xs ≡ weigh g ys
weigh-perm g p = ∥∥₁_elim p (ℕ_set _ _) (Permᴰ-weigh g)

pub weigh-cons : (g : ℕ → ℕ) (x : ℕ) (xs : List ℕ) → weigh g (x ∷ xs) ≡ g x + weigh g xs
unfolding weigh
weigh-cons g x xs = refl

pub weigh-nil : (g : ℕ → ℕ) → weigh g [] ≡ 0
unfolding weigh
weigh-nil g = refl

pub weigh-append : (g : ℕ → ℕ) (xs ys : List ℕ) → weigh g (xs ++ ys) ≡ weigh g xs + weigh g ys
unfolding weigh
weigh-append g [] ys = omega arith
weigh-append g (x ∷ xs) ys = omega (arith, weigh-append g xs ys)

pub weigh-one : (xs : List ℕ) → weigh (λ x. 1) xs ≡ length xs
unfolding weigh
weigh-one [] = refl
weigh-one (x ∷ xs) = omega (arith, weigh-one xs)

-- The weight of the entries that a test marks.
abbrev pub marked : (ℕ → Bool) → (ℕ → ℕ) → ℕ → ℕ
marked test g x = if test x then g x else 0

-- Marking one more entry adds its weight once for each time that it occurs.
pub weigh-marked :
    (test : ℕ → Bool) (g : ℕ → ℕ) (p : ℕ) (xs : List ℕ)
    → test p ≡ false
    → weigh (marked (update test p true) g) xs ≡ weigh (marked test g) xs + count p xs * g p
unfolding weigh
weigh-marked test g p [] h = omega arith
weigh-marked test g p (x ∷ xs) h =
    let ih = weigh-marked test g p xs h in
    elim (Bool-cases (p == x)) [
      | inl e ↦ ground (arith, ih, ==→≡ {a = p} {b = x} e)
      | inr e ↦ ground (arith, ih)
    ]

-- Where `p` is marked, all its occurrences are.
pub weigh-marked_self :
    (test : ℕ → Bool) (p : ℕ) (xs : List ℕ)
    → test p ≡ true
    → weigh (marked test (indicator p)) xs ≡ count p xs
unfolding weigh
weigh-marked_self test p [] h = refl
weigh-marked_self test p (x ∷ xs) h =
    let ih = weigh-marked_self test p xs h in
    elim (Bool-cases (x == p)) [
      | inl e ↦ ground (arith, ih, ==→≡ {a = x} {b = p} e)
      | inr e ↦ ground (arith, ih)
    ]

-- Sums over the indices below `k`.
unfoldable pub total : (ℕ → ℕ) → ℕ → ℕ
total g zero = 0
total g (suc k) = total g k + g k

pub total-update_above : (g : ℕ → ℕ) (c v k : ℕ) → k ≤ c → total (update g c v) k ≡ total g k
unfolding total
total-update_above g c v zero h = refl
total-update_above g c v (suc k) h = ground (arith, total-update_above g c v k)

-- Changing one value changes the sum by the difference.
pub total-update : (g : ℕ → ℕ) (c v k : ℕ) → c < k → total (update g c v) k + g c ≡ total g k + v
unfolding total
total-update g c v zero h = absurd (omega arith)
total-update g c v (suc k) h = elim (dec_lt c k) [
  | yes below ↦ ground (arith, total-update g c v k below)
  | no last ↦ ground (arith, total-update_above g c v k)
]
