-- ===== src/Base/Counts.antt =====
-- Lists of numbers up to order: how often each number occurs says all.
use mathlib.Core.List.Perm
use preemptive_and_non_preem.Base.Tests.{◌==◌, Bool-cases, ==→≡}
use preemptive_and_non_preem.Base.Weight.{
  weigh, weigh-perm, weigh-cons, weigh-nil, count, indicator,
}
use Prim.Native.Nat.{ℕ, ◌<◌}
use mathlib.Core.Path.{◌≡◌, refl, subst}
use mathlib.Core.Logic.{inl, inr}
use mathlib.Core.List.{List, [], ◌∷◌, Perm}
use native.Mathlib.Omega.{arith}

pub count-head : (x : ℕ) (xs : List ℕ) → 0 < count x (x ∷ xs)
unfolding weigh
count-head x xs = ground arith

-- A number that occurs can be moved to the front.
take_out : (x : ℕ) (ys : List ℕ) → 0 < count x ys → (zs : List ℕ) × Perm ys (x ∷ zs)
unfolding weigh
take_out x [] h = absurd (omega arith)
take_out x (y ∷ ys) h = elim (Bool-cases (y == x)) [
  | inl e ↦ (ys, subst (λ z. Perm (y ∷ ys) (z ∷ ys)) (==→≡ {a = y} {b = x} e) Perm.rfl)
  | inr apart ↦
      let (zs, moved) = take_out x ys (ground (arith, apart, h)) in
      (y ∷ zs, Perm.trans (Perm.cons y moved) (Perm.swap x y zs))
]

pub nothing_counts : (xs : List ℕ) → ((y : ℕ) → ¬ (0 < count y xs)) → xs ≡ []
nothing_counts [] h = refl
nothing_counts (x ∷ xs) h = absurd (h x (count-head x xs))

-- Lists that hold every number equally often are permutations of each other.
pub counts-perm : (xs ys : List ℕ) → ((y : ℕ) → count y xs ≡ count y ys) → Perm xs ys
counts-perm [] ys h =
    let e : ys ≡ [] = nothing_counts ys (λ y q. omega (arith, h y, q, weigh-nil (indicator y))) in
    rw e Perm.rfl
counts-perm (x ∷ xs) ys h =
    let (zs, moved) = take_out x ys (omega (arith, h x, count-head x xs)) in
    Perm.trans
      (Perm.cons x (
        counts-perm xs zs (λ y. omega (
          arith,
          h y,
          weigh-perm (indicator y) moved,
          weigh-cons (indicator y) x xs,
          weigh-cons (indicator y) x zs,
        ))))
      (Perm.symm moved)
