-- ===== src/Policies/Prio/Choice.antt =====
-- src/policies/priority.c: the choice between the best of the two sides of the limit.
use preemptive_and_non_preem.Base.{
  ℕ, ◌≡◌, refl, ◌⊎◌, Bool, inl, inr, true, false, Option, none, some, if_holds, arith, Bool-cases,
  ltb, if◌then◌else◌,
}
use preemptive_and_non_preem.Base.Int.{ℤ, pos, ltb_ℤ, i64_min, IsI64, ◌+ℤ◌, ◌-ℤ◌}
use preemptive_and_non_preem.Policy.{earlier}
use preemptive_and_non_preem.Util.Checked.{ck_sub_i64}
use preemptive_and_non_preem.Policies.Prio.{choose, pick, limit_at}
use preemptive_and_non_preem.Policies.Prio.Tree.{
  Prio, key_less, best_below, best_at_or_above, sat_sub, best_of,
}
use preemptive_and_non_preem.Policies.Prio.Keys.{lex_ℤ, key_less_asym, key_less_cotrans}
use preemptive_and_non_preem.Policies.Prio.Best.{IsBest}
use preemptive_and_non_preem.Policies.Prio.Shape.{Has, IsTreap, best_of-IsBest}
use preemptive_and_non_preem.Policies.Prio.Searches.{
  IsBelow, IsAbove, best_below-IsBest, best_at_or_above-IsBest,
}

-- The levels that a queued process has gained beyond those that all have.
abbrev pub bump : Prio → ℤ → ℕ → ℤ
bump s limit y = if ltb_ℤ (s.r y) limit then pos 0 else pos 1

-- Whose queue it is from, or that it is empty.
abbrev pub IsQueued : Prio → Option ℕ → Type 0
IsQueued s none = (y : ℕ) → ¬ Has s.root y
IsQueued s (some p) = Has s.root p

-- The least of all by the key with the levels gained.
abbrev pub IsLeastBumped : Prio → ℤ → Option ℕ → Type 0
IsLeastBumped s limit none = Unit {0}
IsLeastBumped s limit (some p) =
    (y : ℕ) → Has s.root y → key_less s y (bump s limit y) p (bump s limit p) ≡ false

pub sat_sub-zero : (a : ℤ) → IsI64 a → sat_sub a (pos 0) ≡ a
unfolding sat_sub ◌+ℤ◌ ◌-ℤ◌ ck_sub_i64
sat_sub-zero a h = ground (arith, h)

pub sat_sub-one : (a : ℤ) → IsI64 a → ltb_ℤ i64_min a ≡ true → sat_sub a (pos 1) ≡ a -ℤ pos 1
unfolding sat_sub ◌+ℤ◌ ◌-ℤ◌ ck_sub_i64
sat_sub-one a h above = ground (arith, h, above)

shifted : (a b : ℤ) (t : Bool) → lex_ℤ a b t ≡ false → lex_ℤ (a -ℤ pos 1) (b -ℤ pos 1) t ≡ false
unfolding ◌-ℤ◌
shifted a b t h = ground (arith, h)

-- A base of 64 bits that is not the least, so that one less is no overflow.
abbrev pub HasRoom : Prio → ℕ → Type 0
HasRoom s y = IsI64 (s.base y) × (ltb_ℤ i64_min (s.base y) ≡ true)

module _ (s : Prio) (limit : ℤ) where
  sides : (y : ℕ) → Has s.root y → IsBelow s limit s.root y ⊎ IsAbove s limit s.root y
  sides y h = elim (Bool-cases (ltb_ℤ (s.r y) limit)) [
    | inl low ↦ inl (h, low)
    | inr high ↦ inr (h, high)
  ]

  choice-IsQueued :
      (low high : Option ℕ)
      → IsBest s (IsBelow s limit s.root) low
      → IsBest s (IsAbove s limit s.root) high
      → IsQueued s (elim low [
        | none ↦ high
        | some l ↦ elim high [
          | none ↦ some l
          | some h ↦ if key_less s h (pos 1) l (pos 0) then some h else some l
        ]
      ])
  choice-IsQueued none none a b =
      λ y h. elim (sides y h) [ inl low ↦ a y low | inr high ↦ b y high ]
  choice-IsQueued none (some h) a b = b.0.0
  choice-IsQueued (some l) none a b = a.0.0
  choice-IsQueued (some l) (some h) a b =
      if_holds (IsQueued s) (key_less s h (pos 1) l (pos 0)) (λ _. b.0.0) (λ _. a.0.0)

  pub choose-IsQueued : IsTreap s s.root → IsQueued s (choose s limit)
  unfolding choose
  choose-IsQueued t =
      choice-IsQueued (best_below s limit) (best_at_or_above s limit) (best_below-IsBest s limit t)
        (best_at_or_above-IsBest s limit t)

  pub bump-below : (y : ℕ) → IsBelow s limit s.root y → bump s limit y ≡ pos 0
  bump-below y low = rw low.1 refl

  pub bump-above : (y : ℕ) → IsAbove s limit s.root y → bump s limit y ≡ pos 1
  bump-above y high = rw high.1 refl

  module _ (room : (y : ℕ) → Has s.root y → HasRoom s y) where
    -- One more level for both changes nothing where there is room for it.
    key_less-shift :
        (x y : ℕ)
        → Has s.root x
        → Has s.root y
        → key_less s x (pos 0) y (pos 0) ≡ false
        → key_less s x (pos 1) y (pos 1) ≡ false
    unfolding key_less ◌-ℤ◌
    key_less-shift x y h h' less =
        let (fits_x, above_x) = room x h in
        let (fits_y, above_y) = room y h' in
        rw (sat_sub-one (s.base x) fits_x above_x, sat_sub-one (s.base y) fits_y above_y)
          (shifted (s.base x) (s.base y) (earlier s.procs x y)
            (rw (sat_sub-zero (s.base x) fits_x, sat_sub-zero (s.base y) fits_y) at less))

    choice-IsLeastBumped :
        (low high : Option ℕ)
        → IsBest s (IsBelow s limit s.root) low
        → IsBest s (IsAbove s limit s.root) high
        → IsLeastBumped s limit (elim low [
          | none ↦ high
          | some l ↦ elim high [
            | none ↦ some l
            | some h ↦ if key_less s h (pos 1) l (pos 0) then some h else some l
          ]
        ])
    choice-IsLeastBumped none none a b = tt
    choice-IsLeastBumped none (some h) a b = λ y q. elim (sides y q) [
      | inl low ↦ absurd (a y low)
      | inr up ↦ rw (bump-above y up, bump-above h b.0) (key_less-shift y h q b.0.0 (b.1 y up))
    ]
    choice-IsLeastBumped (some l) none a b = λ y q. elim (sides y q) [
      | inl low ↦ rw (bump-below y low, bump-below l a.0) (a.1 y low)
      | inr up ↦ absurd (b y up)
    ]
    choice-IsLeastBumped (some l) (some h) a b =
        if_holds (IsLeastBumped s limit) (key_less s h (pos 1) l (pos 0))
          (λ gained y q. elim (sides y q) [
            | inl low ↦
                rw (bump-below y low, bump-above h b.0)
                  (key_less_cotrans s y (pos 0) l (pos 0) h (pos 1) (a.1 y low)
                    (key_less_asym s h (pos 1) l (pos 0) gained))
            | inr up ↦
                rw (bump-above y up, bump-above h b.0) (key_less-shift y h q b.0.0 (b.1 y up))
          ])
          (λ kept y q. elim (sides y q) [
            | inl low ↦ rw (bump-below y low, bump-below l a.0) (a.1 y low)
            | inr up ↦
                rw (bump-above y up, bump-below l a.0)
                  (key_less_cotrans s y (pos 1) h (pos 1) l (pos 0)
                    (key_less-shift y h q b.0.0 (b.1 y up)) kept)
          ])

    pub choose-IsLeastBumped : IsTreap s s.root → IsLeastBumped s limit (choose s limit)
    unfolding choose
    choose-IsLeastBumped t =
        choice-IsLeastBumped (best_below s limit) (best_at_or_above s limit)
          (best_below-IsBest s limit t) (best_at_or_above-IsBest s limit t)

module _ (s : Prio) (now : ℕ) (tree : IsTreap s s.root) where
  root-IsQueued : (o : Option ℕ) → IsBest s (Has s.root) o → IsQueued s o
  root-IsQueued none h = h
  root-IsQueued (some p) h = h.0

  -- For a state whose tree is a treap: `pick` gives a queued process, and NIL for an empty queue.
  pub pick-IsQueued : IsQueued s (pick s now)
  unfolding pick
  pick-IsQueued =
      if_holds (IsQueued s) (ltb 0 s.aging) (λ _. choose-IsQueued s (limit_at s now) tree)
        (λ _. root-IsQueued (best_of s.root) (best_of-IsBest s s.root tree))
