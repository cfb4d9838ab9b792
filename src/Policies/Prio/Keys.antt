-- ===== src/Policies/Prio/Keys.antt =====
-- The two orders of src/policies/priority.c: that of the tree, by (r, pid), and that of the keys.
use preemptive_and_non_preem.Base.{ℕ, ◌≡◌, ◌≢◌, Bool, true, false, List, arith, if◌then◌else◌}
use preemptive_and_non_preem.Base.Int.{ℤ, eqb_ℤ, ltb_ℤ}
use preemptive_and_non_preem.Core.{Process}
use preemptive_and_non_preem.Policy.{pid_of, earlier}
use preemptive_and_non_preem.Policies.Prio.Tree.{Prio, sat_sub, key_less, node_before}

pub node_before_trans :
    (s : Prio) (x y z : ℕ)
    → node_before s x y ≡ true
    → node_before s y z ≡ true
    → node_before s x z ≡ true
unfolding node_before
node_before_trans s x y z h h' = ground (arith, h, h')

pub node_before_asym : (s : Prio) (x y : ℕ) → node_before s x y ≡ true → node_before s y x ≡ false
unfolding node_before
node_before_asym s x y h = ground (arith, h)

pub node_before_irrefl : (s : Prio) (x : ℕ) → node_before s x x ≡ false
unfolding node_before
node_before_irrefl s x = ground arith

pub node_before_total :
    (s : Prio) (x y : ℕ)
    → pid_of s.procs x ≢ pid_of s.procs y
    → node_before s x y ≡ false
    → node_before s y x ≡ true
unfolding node_before
node_before_total s x y apart h = ground (arith, apart, h)

-- By an integer first, and by a second test where the integers are the same.
abbrev pub lex_ℤ : ℤ → ℤ → Bool → Bool
lex_ℤ a b t = if eqb_ℤ a b then t else ltb_ℤ a b

module _ {t1 t2 t3 : Bool} (a b c : ℤ) where
  lex_ℤ-trans :
      (t1 ≡ true → t2 ≡ true → t3 ≡ true)
      → lex_ℤ a b t1 ≡ true
      → lex_ℤ b c t2 ≡ true
      → lex_ℤ a c t3 ≡ true
  lex_ℤ-trans k h h' = ground (arith, k, h, h')

  lex_ℤ-cotrans :
      (t1 ≡ false → t2 ≡ false → t3 ≡ false)
      → lex_ℤ a b t1 ≡ false
      → lex_ℤ b c t2 ≡ false
      → lex_ℤ a c t3 ≡ false
  lex_ℤ-cotrans k h h' = ground (arith, k, h, h')

module _ (procs : List Process) (x y z : ℕ) where
  earlier_trans : earlier procs x y ≡ true → earlier procs y z ≡ true → earlier procs x z ≡ true
  earlier_trans h h' = ground (arith, h, h')

  earlier_cotrans :
      earlier procs x y ≡ false → earlier procs y z ≡ false → earlier procs x z ≡ false
  earlier_cotrans h h' = ground (arith, h, h')

pub key_less_irrefl : (s : Prio) (x : ℕ) (bump : ℤ) → key_less s x bump x bump ≡ false
unfolding key_less
key_less_irrefl s x bump = ground arith

module _ (s : Prio) (x : ℕ) (bx : ℤ) (y : ℕ) (by_ : ℤ) where
  pub key_less_asym : key_less s x bx y by_ ≡ true → key_less s y by_ x bx ≡ false
  unfolding key_less
  key_less_asym h = ground (arith, h)

  module _ (z : ℕ) (bz : ℤ) where
    pub key_less_trans :
        key_less s x bx y by_ ≡ true → key_less s y by_ z bz ≡ true → key_less s x bx z bz ≡ true
    unfolding key_less
    key_less_trans =
        lex_ℤ-trans (sat_sub (s.base x) bx) (sat_sub (s.base y) by_) (sat_sub (s.base z) bz)
          (earlier_trans s.procs x y z)

    pub key_less_cotrans :
        key_less s x bx y by_ ≡ false → key_less s y by_ z bz ≡ false → key_less s x bx z bz ≡ false
    unfolding key_less
    key_less_cotrans =
        lex_ℤ-cotrans (sat_sub (s.base x) bx) (sat_sub (s.base y) by_) (sat_sub (s.base z) bz)
          (earlier_cotrans s.procs x y z)
