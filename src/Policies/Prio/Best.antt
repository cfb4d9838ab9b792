-- ===== src/Policies/Prio/Best.antt =====
-- src/policies/priority.c: the least key among processes, which `best` and the searches give.
use preemptive_and_non_preem.Base.{ℕ, ◌≡◌, refl, ◌⊎◌, inl, inr, false, Option, none, some, if_holds}
use preemptive_and_non_preem.Base.Int.{pos}
use preemptive_and_non_preem.Policies.Prio.Tree.{Prio, key_less, better_of}
use preemptive_and_non_preem.Policies.Prio.Keys.{key_less_irrefl, key_less_asym, key_less_cotrans}

-- No process of `Q` has a key below that of `b`.
abbrev pub IsLeast : Prio → (ℕ → Type 0) → ℕ → Type 0
IsLeast s Q b = (y : ℕ) → Q y → key_less s y (pos 0) b (pos 0) ≡ false

-- A process of `Q` with the least key, or NIL where there is none.
abbrev pub IsBest : Prio → (ℕ → Type 0) → Option ℕ → Type 0
IsBest s Q none = (y : ℕ) → ¬ Q y
IsBest s Q (some b) = Q b × IsLeast s Q b

module _ (s : Prio) where
  pub IsBest-same :
      {Q R : ℕ → Type 0} (o : Option ℕ)
      → ((y : ℕ) → Q y → R y)
      → ((y : ℕ) → R y → Q y)
      → IsBest s Q o
      → IsBest s R o
  IsBest-same none to from h = λ y q. h y (from y q)
  IsBest-same (some b) to from h = (to b h.0, λ y q. h.1 y (from y q))

  module _ {Q R T : ℕ → Type 0} (from_left : (y : ℕ) → Q y → T y) (from_right : (y : ℕ) → R y → T y)
      (parts : (y : ℕ) → T y → Q y ⊎ R y) where
    -- `better_of` gives the best of a union.
    pub better_of-IsBest :
        (o o' : Option ℕ) → IsBest s Q o → IsBest s R o' → IsBest s T (better_of s o o')
    unfolding better_of
    better_of-IsBest none none h h' = λ y t. elim (parts y t) [ inl q ↦ h y q | inr q ↦ h' y q ]
    better_of-IsBest none (some b) h h' =
        (from_right b h'.0, λ y t. elim (parts y t) [ inl q ↦ absurd (h y q) | inr q ↦ h'.1 y q ])
    better_of-IsBest (some a) none h h' =
        (from_left a h.0, λ y t. elim (parts y t) [ inl q ↦ h.1 y q | inr q ↦ absurd (h' y q) ])
    better_of-IsBest (some a) (some b) h h' =
        if_holds (IsBest s T) (key_less s b (pos 0) a (pos 0))
          (λ less. (
            from_right b h'.0,
            λ y t. elim (parts y t) [
              | inl q ↦
                  key_less_cotrans s y (pos 0) a (pos 0) b (pos 0) (h.1 y q)
                    (key_less_asym s b (pos 0) a (pos 0) less)
              | inr q ↦ h'.1 y q
            ],
          ))
          (λ kept. (
            from_left a h.0,
            λ y t. elim (parts y t) [
              | inl q ↦ h.1 y q
              | inr q ↦ key_less_cotrans s y (pos 0) b (pos 0) a (pos 0) (h'.1 y q) kept
            ],
          ))

  pub IsBest-one : (x : ℕ) → IsBest s (λ y. y ≡ x) (some x)
  IsBest-one x = (refl, λ y e. rw e (key_less_irrefl s x (pos 0)))
