-- ===== src/Metrics.antt =====
-- src/metrics/metrics.c: the parts of the metrics that are computed on integers.
use native.Mathlib.Decide.{dec_lt}
use preemptive_and_non_preem.Base.{
  ℕ, zero, suc, ◌+◌, ◌-◌, ◌*◌, ◌/◌, ◌%◌, ◌^◌, ◌<◌, ◌≤◌, ◌≡◌, refl, ◌∙◌, Option, none, some, List,
  get_or, arith, ltb, ◌==◌, if◌then◌else◌, inl, inr, Option-cases, ap,
}

-- The latest completion, over the first `k` processes; `none` is the time -1.
unfoldable pub metrics_makespan : (ℕ → Option ℕ) → ℕ → ℕ
metrics_makespan completion zero = 0
metrics_makespan completion (suc k) =
    let makespan = metrics_makespan completion k in
    elim (completion k) [ none ↦ makespan | some t ↦ if ltb makespan t then t else makespan ]

-- The rank of the percentile `pct` among `n` values, from 1. A `size_t` has 64 bits.
unfoldable pub rank_of : ℕ → ℕ → ℕ
rank_of n pct = ((pct * n + 99) % 2 ^ 64) / 100

unfoldable pub percentile : List ℕ → ℕ → ℕ → ℕ
unfolding rank_of
percentile sorted n pct =
    let rank = rank_of n pct in get_or sorted (if rank == 0 then 0 else rank - 1) 0

-- `v` is the nearest-rank percentile of `n` values: the value of a rank `r`, the least rank that
-- covers `pct` percent of them, and no value of a rank up to `r` is greater.
pub record IsPercentile (sorted : List ℕ) (n pct v : ℕ) : Type 0 where
  pub r : ℕ
  pub from_one : 0 < r
  pub within : r ≤ n
  pub covers : pct * n ≤ 100 * r
  pub no_less : (k : ℕ) → k < r → 100 * k < pct * n
  pub value : v ≡ get_or sorted (r - 1) 0
  pub greatest : (k : ℕ) → k < r → get_or sorted k 0 ≤ v

makespan-suc :
    (completion : ℕ → Option ℕ) (n t : ℕ)
    → completion n ≡ some t
    → metrics_makespan completion (suc n)
      ≡ (if ltb (metrics_makespan completion n) t then t else metrics_makespan completion n)
unfolding metrics_makespan
makespan-suc completion n t e = simp (e, metrics_makespan) refl

makespan-none :
    (completion : ℕ → Option ℕ) (n : ℕ)
    → completion n ≡ none
    → metrics_makespan completion (suc n) ≡ metrics_makespan completion n
unfolding metrics_makespan
makespan-none completion n e = simp (e, metrics_makespan) refl

makespan-grows :
    (completion : ℕ → Option ℕ) (n : ℕ)
    → metrics_makespan completion n ≤ metrics_makespan completion (suc n)
makespan-grows completion n = elim (Option-cases (completion n)) [
  | inl e ↦ omega (arith, makespan-none completion n e)
  | inr (t, e) ↦ ground (arith, makespan-suc completion n t e)
]

-- The makespan is no earlier than the completion of any of the processes.
pub metrics_makespan-latest :
    (completion : ℕ → Option ℕ) (n p t : ℕ)
    → p < n
    → completion p ≡ some t
    → t ≤ metrics_makespan completion n
metrics_makespan-latest completion zero p t h e = absurd (omega (arith, h))
metrics_makespan-latest completion (suc n) p t h e = elim (dec_lt p n) [
  | yes below ↦
      omega (arith, metrics_makespan-latest completion n p t below e, makespan-grows completion n)
  | no last ↦
      let here : n ≡ p = omega (arith, h, last) in
      ground (arith, makespan-suc completion n t (ap completion here ∙ e))
]
