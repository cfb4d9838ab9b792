-- ===== src/Util/Checked.antt =====
-- include/sched/checked.h: addition and subtraction of `int64_t` that report an overflow.
-- An `int64_t` is an integer with a range; `none` is the result `false`.
use preemptive_and_non_preem.Base.{◌≡◌, ◌↔◌, ◌&&◌, ◌||◌, Option, none, some, arith, if◌then◌else◌}
use preemptive_and_non_preem.Base.Int.{ℤ, pos, ◌+ℤ◌, ◌-ℤ◌, ltb_ℤ, i64_max, i64_min, IsI64}

unfoldable pub ck_add_i64 : ℤ → ℤ → Option ℤ
ck_add_i64 a b =
    if (ltb_ℤ (pos 0) b && ltb_ℤ (i64_max -ℤ b) a) || (ltb_ℤ b (pos 0) && ltb_ℤ a (i64_min -ℤ b))
    then none
    else some (a +ℤ b)

unfoldable pub ck_sub_i64 : ℤ → ℤ → Option ℤ
ck_sub_i64 a b =
    if (ltb_ℤ b (pos 0) && ltb_ℤ (i64_max +ℤ b) a) || (ltb_ℤ (pos 0) b && ltb_ℤ a (i64_min +ℤ b))
    then none
    else some (a -ℤ b)

-- Whatever the two `int64_t` are, `ck_add_i64` returns their sum exactly when it fits in 64 bits.
pub ck_add_i64-exact :
    (a b c : ℤ) → IsI64 a → IsI64 b → (ck_add_i64 a b ≡ some c) ↔ ((c ≡ a +ℤ b) × IsI64 c)
unfolding ck_add_i64 ◌+ℤ◌ ◌-ℤ◌
ck_add_i64-exact a b c ha hb = (λ e. ground arith, λ h. ground arith)

-- Whatever the two `int64_t` are, `ck_sub_i64` returns their difference exactly when it fits.
pub ck_sub_i64-exact :
    (a b c : ℤ) → IsI64 a → IsI64 b → (ck_sub_i64 a b ≡ some c) ↔ ((c ≡ a -ℤ b) × IsI64 c)
unfolding ck_sub_i64 ◌+ℤ◌ ◌-ℤ◌
ck_sub_i64-exact a b c ha hb = (λ e. ground arith, λ h. ground arith)
