-- ===== src/Cli/Levels.antt =====
-- src/cli/main.c: the options of MLFQ, from the command line to the parameters of the policy.
use mathlib.Core.Option
use mathlib.Core.Path.{subst}
use preemptive_and_non_preem.Base.{
  ℕ, zero, suc, ◌+◌, ◌^◌, ◌<◌, ◌≤◌, ◌≡◌, Bool, true, false, not, ◌&&◌, ◌||◌, Option, none, some,
  List, [], ◌∷◌, length, leb, ltb, arith, if_holds, step_passed, guard_passed, ◌==◌, if◌then◌else◌,
  update, contrary, ◌⊎◌, inl, inr, refl, ==→≡,
}
use preemptive_and_non_preem.Base.Int.{ℤ, pos, negsuc}
use preemptive_and_non_preem.Policy.{policy_params_default}
use preemptive_and_non_preem.Input.Text.{Text, parse_i64, pieces}
use preemptive_and_non_preem.Cli.{
  Options, above_zero, levels_from_quanta, finish_allot, default_options, parse_positive,
  list_pieces, parse_list, levels_option, quanta_option, allot_option, finish_mlfq, MlfqArgument,
  levels, quanta, allot, mlfq_argument, mlfq_options,
}

-- The first 16 entries of an array are positive.
abbrev pub AllPositive : (ℕ → ℕ) → Type 0
AllPositive out = (l : ℕ) → l < 16 → 0 < out l

above_zero-positive : (z : ℤ) (n : ℕ) → above_zero z ≡ some n → 0 < n
above_zero-positive (pos m) n h = ground (arith, h)
above_zero-positive (negsuc m) n h = cc

parse_positive-positive : (v : Text) (n : ℕ) → parse_positive v ≡ some n → 0 < n
unfolding parse_positive
parse_positive-positive v n h =
    let (z, e, h1) = step_passed (parse_i64 v) above_zero n h in above_zero-positive z n h1

update-AllPositive :
    (out : ℕ → ℕ) (at n : ℕ) → AllPositive out → 0 < n → AllPositive (update out at n)
update-AllPositive out at n h more l lt = if_holds (λ x. 0 < x) (at == l) (λ _. more) (λ _. h l lt)

-- What a list of `more` pieces leaves, after `count` others.
record IsListed (max count more : ℕ) (r : ℕ × (ℕ → ℕ)) : Type 0 where
  total : r.0 ≡ count + more
  fits : r.0 ≤ max
  entries : AllPositive r.1

list_pieces-IsListed :
    (max count : ℕ) (out : ℕ → ℕ) (vs : List Text) (r : ℕ × (ℕ → ℕ))
    → list_pieces max count out vs ≡ some r
    → count ≤ max
    → AllPositive out
    → IsListed max count (length vs) r
unfolding list_pieces
list_pieces-IsListed max count out [] r h le good =
    subst (IsListed max count 0) (Option.some-injective _ _ h)
      (record { total = omega arith; fits = le; entries = good })
list_pieces-IsListed max count out (v ∷ vs) r h le good =
    let (short, h1) = guard_passed (count == max || length v == 0 || leb 32 (length v)) _ r h in
    let (n, e, h2) = step_passed (parse_positive v) _ r h1 in
    let lt : count < max = ground (arith, short) in
    let kept = update-AllPositive out count n good (parse_positive-positive v n e) in
    let rest =
      list_pieces-IsListed max (suc count) (update out count n) vs r h2 (omega (arith, lt)) kept in
    record { total = omega (arith, rest.total); fits = rest.fits; entries = rest.entries }

parse_list-IsListed :
    (out : ℕ → ℕ) (v : Text) (r : ℕ × (ℕ → ℕ))
    → parse_list 16 out v ≡ some r
    → AllPositive out
    → (0 < r.0) × (r.0 ≤ 16) × AllPositive r.1
unfolding parse_list
parse_list-IsListed out v r h good =
    let (first, others) = pieces b',' v in
    let all = list_pieces-IsListed 16 0 out (first ∷ others) r h (omega arith) good in
    (omega (arith, all.total), all.fits, all.entries)

-- The options after any number of arguments.
record IsUsable (opt : Options) : Type 0 where
  some_level : 0 < opt.params.mlfq_levels
  few_levels : opt.params.mlfq_levels ≤ 16
  quanta_positive : AllPositive opt.params.mlfq_quanta
  allot_positive : AllPositive opt.params.mlfq_allotment
  counted : opt.quanta_given ≡ true → (0 < opt.n_quanta) × (opt.n_quanta ≤ 16)

power_positive : (l : ℕ) → 0 < 2 ^ l
power_positive zero = omega arith
power_positive (suc l) = omega (arith, power_positive l)

default_options-IsUsable : IsUsable default_options
unfolding default_options policy_params_default
default_options-IsUsable = record {
  some_level = omega arith;
  few_levels = omega arith;
  quanta_positive = λ l lt. omega (arith, power_positive l);
  allot_positive = λ l lt. omega (arith, power_positive l);
  counted = λ e. cc;
}

levels_option-IsUsable :
    (opt : Options) (v : Text) (r : Options)
    → levels_option opt v ≡ some r
    → IsUsable opt
    → IsUsable r
unfolding levels_option
levels_option-IsUsable opt v r h good =
    let (l, e, h1) = step_passed (parse_positive v) _ r h in
    let (fits, h2) = guard_passed (ltb 16 l) _ r h1 in
    subst IsUsable (Option.some-injective _ _ h2) (record {
      some_level = parse_positive-positive v l e;
      few_levels = ground (arith, fits);
      quanta_positive = good.quanta_positive;
      allot_positive = good.allot_positive;
      counted = good.counted;
    })

quanta_option-IsUsable :
    (opt : Options) (v : Text) (r : Options)
    → quanta_option opt v ≡ some r
    → IsUsable opt
    → IsUsable r
unfolding quanta_option
quanta_option-IsUsable opt v r h good =
    let (q, e, h1) = step_passed (parse_list 16 opt.params.mlfq_quanta v) _ r h in
    let (more, fits, entries) = parse_list-IsListed _ v q e good.quanta_positive in
    subst IsUsable (Option.some-injective _ _ h1) (record {
      some_level = good.some_level;
      few_levels = good.few_levels;
      quanta_positive = entries;
      allot_positive = good.allot_positive;
      counted = λ _. (more, fits);
    })

allot_option-IsUsable :
    (opt : Options) (v : Text) (r : Options)
    → allot_option opt v ≡ some r
    → IsUsable opt
    → IsUsable r
unfolding allot_option
allot_option-IsUsable opt v r h good =
    let (q, e, h1) = step_passed (parse_list 16 opt.params.mlfq_allotment v) _ r h in
    let (_, _, entries) = parse_list-IsListed _ v q e good.allot_positive in
    subst IsUsable (Option.some-injective _ _ h1) (record {
      some_level = good.some_level;
      few_levels = good.few_levels;
      quanta_positive = good.quanta_positive;
      allot_positive = entries;
      counted = good.counted;
    })

mlfq_argument-IsUsable :
    (opt : Options) (a : MlfqArgument) (r : Options)
    → mlfq_argument opt a ≡ some r
    → IsUsable opt
    → IsUsable r
unfolding mlfq_argument
mlfq_argument-IsUsable opt (levels v) = levels_option-IsUsable opt v
mlfq_argument-IsUsable opt (quanta v) = quanta_option-IsUsable opt v
mlfq_argument-IsUsable opt (allot v) = allot_option-IsUsable opt v

-- What the policy is created with.
pub record IsLevelled (opt : Options) : Type 0 where
  pub some_level : 0 < opt.params.mlfq_levels
  pub few_levels : opt.params.mlfq_levels ≤ 16
  pub quanta_positive : AllPositive opt.params.mlfq_quanta
  pub allot_positive : AllPositive opt.params.mlfq_allotment
  pub quanta_agree : opt.quanta_given ≡ true → opt.n_quanta ≡ opt.params.mlfq_levels
  pub allot_agree : opt.allot_given ≡ true → opt.n_allot ≡ opt.params.mlfq_levels

allot_cases :
    {A : Type 0} (given same : Bool) (x y r : A)
    → (if given then if same then some x else none else some y) ≡ some r
    → ((given ≡ true) × (same ≡ true) × (x ≡ r)) ⊎ ((given ≡ false) × (y ≡ r))
allot_cases true true x y r h = inl (refl, refl, Option.some-injective _ _ h)
allot_cases true false x y r h = cc
allot_cases false same x y r h = inr (refl, Option.some-injective _ _ h)

quanta_cases :
    {A : Type 0} (given refused : Bool) (o o' : Option A) (r : A)
    → (if given then if refused then none else o else o') ≡ some r
    → ((given ≡ true) × (o ≡ some r)) ⊎ ((given ≡ false) × (o' ≡ some r))
quanta_cases true true o o' r h = cc
quanta_cases true false o o' r h = inl (refl, h)
quanta_cases false refused o o' r h = inr (refl, h)

finish_allot-IsLevelled :
    (opt r : Options)
    → finish_allot opt ≡ some r
    → IsUsable opt
    → (opt.quanta_given ≡ true → opt.n_quanta ≡ opt.params.mlfq_levels)
    → IsLevelled r
finish_allot-IsLevelled opt r h good same =
    elim (allot_cases opt.allot_given (opt.n_allot == opt.params.mlfq_levels) _ _ r h) [
      | inl (given, equal, e) ↦ subst IsLevelled e (record {
        some_level = good.some_level;
        few_levels = good.few_levels;
        quanta_positive = good.quanta_positive;
        allot_positive = good.allot_positive;
        quanta_agree = same;
        allot_agree = λ _. ==→≡ equal;
      })
      | inr (missing, e) ↦ subst IsLevelled e (record {
        some_level = good.some_level;
        few_levels = good.few_levels;
        quanta_positive = good.quanta_positive;
        allot_positive = good.quanta_positive;
        quanta_agree = same;
        allot_agree = λ given. absurd (contrary given missing);
      })
    ]

finish_mlfq-IsLevelled : (opt r : Options) → finish_mlfq opt ≡ some r → IsUsable opt → IsLevelled r
unfolding finish_mlfq
finish_mlfq-IsLevelled opt r h good =
    elim (quanta_cases opt.quanta_given
      (opt.levels_given && not (opt.n_quanta == opt.params.mlfq_levels))
      (finish_allot (levels_from_quanta opt)) (finish_allot opt) r h) [
        | inl (given, e) ↦
            finish_allot-IsLevelled (levels_from_quanta opt) r e
              (record {
                some_level = (good.counted given).0;
                few_levels = (good.counted given).1;
                quanta_positive = good.quanta_positive;
                allot_positive = good.allot_positive;
                counted = good.counted;
              })
              (λ _. refl)
        | inr (missing, e) ↦
            finish_allot-IsLevelled opt r e good (λ given. absurd (contrary given missing))
      ]

mlfq_options-IsUsable :
    (opt r : Options) (args : List MlfqArgument)
    → mlfq_options opt args ≡ some r
    → IsUsable opt
    → IsLevelled r
unfolding mlfq_options
mlfq_options-IsUsable opt r [] h good = finish_mlfq-IsLevelled opt r h good
mlfq_options-IsUsable opt r (a ∷ args) h good =
    let (next, e, h1) = step_passed (mlfq_argument opt a) _ r h in
    mlfq_options-IsUsable next r args h1 (mlfq_argument-IsUsable opt a next e good)

-- For any sequence of the three options of MLFQ, from the default options: where they are accepted,
-- there are 1 to 16 levels, all 16 quanta and all 16 allotments are positive, and a list of quanta or
-- of allotments that was given has one entry for each level.
pub mlfq_options-IsLevelled :
    (args : List MlfqArgument) (r : Options)
    → mlfq_options default_options args ≡ some r
    → IsLevelled r
mlfq_options-IsLevelled args r h =
    mlfq_options-IsUsable default_options r args h default_options-IsUsable
