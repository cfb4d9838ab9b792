-- ===== src/Util/Bits.antt =====
-- The bit operations of C's `uint64_t`, and the SplitMix64 finaliser of src/policies/priority.c and
-- src/policies/lottery.c.
use Prim.Native.Nat.{bit_xor}
use preemptive_and_non_preem.Base.{ℕ, ◌+◌, ◌*◌, ◌/◌, ◌%◌, ◌^◌}

abbrev pub two_64 : ℕ
two_64 = 2 ^ 64

-- The last three lines of `mix`, and of `splitmix64`.
abbrev pub finish_mix : ℕ → ℕ
finish_mix z =
    let z1 = bit_xor z (z / 2 ^ 30) * 13787848793156543929 % two_64 in
    let z2 = bit_xor z1 (z1 / 2 ^ 27) * 10723151780598845931 % two_64 in bit_xor z2 (z2 / 2 ^ 31)

unfoldable pub mix : ℕ → ℕ
mix z = finish_mix ((z + 11400714819323198485) % two_64)
