-- ===== src/Engine/Census/Openings.antt =====
-- The cores that can still take a pick, counted: what `find_core` finds, and what filling one changes.

use preemptive_and_non_preem.Base.{
  ℕ, zero, suc, ◌+◌, ◌-◌, ◌<◌, ◌≤◌, ◌≡◌, refl, sym, ap, Bool, true, false, not, ◌||◌, none, some,
  if◌then◌else◌, arith, ◌∙◌, inl, inr, Bool-cases, ◌==◌, ==→≡,
}
use preemptive_and_non_preem.Engine.State.{Engine, is_free}
use preemptive_and_non_preem.Engine.Dispatch.{find_core}

-- A core that can take a pick.
abbrev pub is_open : {D S : Type 0} → Engine D S → (ℕ → Bool) → ℕ → Bool
is_open e used c = not (used c || not (is_free (e.cores c)))

-- How many of the `left` cores from `c` on can.
unfoldable pub openings : (ℕ → Bool) → ℕ → ℕ → ℕ
openings test zero c = 0
openings test (suc left) c = (if test c then 1 else 0) + openings test left (c + 1)

-- What `find_core` finds: the first core that passes, or none where no core passes.
pub record Found (test : ℕ → Bool) (left c d : ℕ) : Type 0 where
  pub passes : test d ≡ true
  pub above : c ≤ d
  pub below : d < c + left
  pub first : openings test left c ≡ openings test (left + c - d) d

pub find_core-Found :
    (test : ℕ → Bool) (left c d : ℕ) → find_core test left c ≡ some d → Found test left c d
unfolding find_core openings
find_core-Found test zero c d h = cc
find_core-Found test (suc left) c d h = elim (Bool-cases (test c)) [
  | inl hit ↦
      let at_c : some c ≡ some d = ground arith in
      let e : c ≡ d = cc in
      record {
        passes = rw (sym e) hit;
        above = omega (arith, e);
        below = omega (arith, e);
        first =
            let k : suc left + c - d ≡ suc left = omega (arith, e) in
            ap (λ x. openings test (suc left) x) e ∙ sym (ap (λ x. openings test x d) k);
      }
  | inr miss ↦
      let later : find_core test left (c + 1) ≡ some d = ground arith in
      let f = find_core-Found test left (c + 1) d later in
      record {
        passes = f.passes;
        above = omega (arith, f.above);
        below = omega (arith, f.below);
        first =
            let k : left + (c + 1) - d ≡ suc left + c - d = omega (arith, f.above) in
            let skip : openings test (suc left) c ≡ openings test left (c + 1) =
              rw miss (omega arith) in
            skip ∙ f.first ∙ ap (λ x. openings test x d) k;
      }
]

pub find_core-none :
    (test : ℕ → Bool) (left c : ℕ) → find_core test left c ≡ none → openings test left c ≡ 0
unfolding find_core openings
find_core-none test zero c h = refl
find_core-none test (suc left) c h = ground (arith, find_core-none test left (c + 1))

-- Closing a core outside of a range.
openings-outside :
    (test test' : ℕ → Bool) (d : ℕ)
    → ((x : ℕ) → (d == x) ≡ false → test' x ≡ test x)
    → (left c : ℕ) → d < c
    → openings test left c ≡ openings test' left c
unfolding openings
openings-outside test test' d same zero c lo = refl
openings-outside test test' d same (suc left) c lo =
    let apart : (d == c) ≡ false = ground arith in
    let here = same c apart in
    let rest = openings-outside test test' d same left (c + 1) (omega arith) in
    rw here (omega (arith, rest))

-- Closing one core of a range.
pub openings-close :
    (test test' : ℕ → Bool) (d : ℕ)
    → test d ≡ true
    → test' d ≡ false
    → ((x : ℕ) → (d == x) ≡ false → test' x ≡ test x)
    → (left c : ℕ) → c ≤ d
    → d < c + left
    → openings test left c ≡ openings test' left c + 1
unfolding openings
openings-close test test' d yes_d no_d same zero c lo hi = absurd (omega arith)
openings-close test test' d yes_d no_d same (suc left) c lo hi = elim (Bool-cases (d == c)) [
  | inl e ↦
      let here : d ≡ c = ==→≡ {a = d} {b = c} e in
      let yes : test c ≡ true = rw (sym here) yes_d in
      let no : test' c ≡ false = rw (sym here) no_d in
      let rest = openings-outside test test' d same left (c + 1) (omega (arith, here)) in
      rw (yes, no) (omega (arith, rest))
  | inr e ↦
      let further : c + 1 ≤ d = ground (arith, lo, e) in
      let rest = openings-close test test' d yes_d no_d same left (c + 1) further (omega arith) in
      rw (same c e) (omega (arith, rest))
]
