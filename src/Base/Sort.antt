-- ===== src/Base/Sort.antt =====
-- The C library's `qsort`, for a comparison given as "not after": the result is the sorted list.
use mathlib.Core.List.Perm
use preemptive_and_non_preem.Base.{
  ℕ, zero, suc, ◌<◌, ◌≡◌, Bool, true, false, List, [], ◌∷◌, Perm, if◌then◌else◌, if_holds, length,
  get_or, arith,
}

module _ {A : Type 0} (le : A → A → Bool) where
  unfoldable pub insert : A → List A → List A
  insert x [] = x ∷ []
  insert x (y ∷ ys) = if le x y then x ∷ y ∷ ys else y ∷ insert x ys

  unfoldable pub qsort : List A → List A
  unfolding insert
  qsort [] = []
  qsort (x ∷ xs) = insert x (qsort xs)

  pub insert-perm : (x : A) (ys : List A) → Perm (insert x ys) (x ∷ ys)
  unfolding insert
  insert-perm x [] = Perm.rfl
  insert-perm x (y ∷ ys) =
      if_holds (λ r. Perm r (x ∷ y ∷ ys)) (le x y) (λ _. Perm.rfl)
        (λ _. Perm.trans (Perm.cons y (insert-perm x ys)) (Perm.swap x y ys))

  pub qsort-perm : (xs : List A) → Perm (qsort xs) xs
  unfolding qsort
  qsort-perm [] = Perm.rfl
  qsort-perm (x ∷ xs) = Perm.trans (insert-perm x (qsort xs)) (Perm.cons x (qsort-perm xs))

  -- Before every entry of a list, and a list in order.
  abbrev pub AllAfter : A → List A → Type 0
  AllAfter x [] = Unit {0}
  AllAfter x (y ∷ ys) = (le x y ≡ true) × AllAfter x ys

  abbrev pub InOrder : List A → Type 0
  InOrder [] = Unit {0}
  InOrder (x ∷ xs) = AllAfter x xs × InOrder xs

  module _ (trans : (x y z : A) → le x y ≡ true → le y z ≡ true → le x z ≡ true)
      (total : (x y : A) → le x y ≡ false → le y x ≡ true) where
    AllAfter-below : (x y : A) (ys : List A) → le x y ≡ true → AllAfter y ys → AllAfter x ys
    AllAfter-below x y [] h after = tt
    AllAfter-below x y (z ∷ zs) h (here, after) =
        (trans x y z h here, AllAfter-below x y zs h after)

    AllAfter-insert :
        (z x : A) (ys : List A) → le z x ≡ true → AllAfter z ys → AllAfter z (insert x ys)
    unfolding insert
    AllAfter-insert z x [] h after = (h, tt)
    AllAfter-insert z x (y ∷ ys) h (here, after) =
        if_holds (AllAfter z) (le x y) (λ _. (h, (here, after)))
          (λ _. (here, AllAfter-insert z x ys h after))

    insert-InOrder : (x : A) (ys : List A) → InOrder ys → InOrder (insert x ys)
    unfolding insert
    insert-InOrder x [] h = (tt, tt)
    insert-InOrder x (y ∷ ys) (after, h) =
        if_holds InOrder (le x y)
          (λ first. ((first, AllAfter-below x y ys first after), (after, h)))
          (λ later. (AllAfter-insert y x ys (total x y later) after, insert-InOrder x ys h))

    pub qsort-InOrder : (xs : List A) → InOrder (qsort xs)
    unfolding qsort
    qsort-InOrder [] = tt
    qsort-InOrder (x ∷ xs) = insert-InOrder x (qsort xs) (qsort-InOrder xs)

  AllAfter-at :
      (x d : A) (ys : List A) (j : ℕ) → AllAfter x ys → j < length ys → le x (get_or ys j d) ≡ true
  AllAfter-at x d [] j after h = absurd (omega (arith, h))
  AllAfter-at x d (y ∷ ys) zero (here, after) h = here
  AllAfter-at x d (y ∷ ys) (suc j) (here, after) h = AllAfter-at x d ys j after (omega (arith, h))

  -- Two positions of a list in order.
  pub InOrder-at :
      (d : A) (xs : List A) (i j : ℕ)
      → InOrder xs
      → i < j
      → j < length xs
      → le (get_or xs i d) (get_or xs j d) ≡ true
  InOrder-at d [] i j ordered lt h = absurd (omega (arith, h))
  InOrder-at d (x ∷ xs) i zero ordered lt h = absurd (omega (arith, lt))
  InOrder-at d (x ∷ xs) zero (suc j) (after, ordered) lt h =
      AllAfter-at x d xs j after (omega (arith, h))
  InOrder-at d (x ∷ xs) (suc i) (suc j) (after, ordered) lt h =
      InOrder-at d xs i j ordered (omega (arith, lt)) (omega (arith, h))
