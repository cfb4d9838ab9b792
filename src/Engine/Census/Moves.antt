-- ===== src/Engine/Census/Moves.antt =====
-- What each elementary move does to the census.
use mathlib.Core.Path.{fun_ext}
use native.Mathlib.Decide.{dec_lt}
use native.Mathlib.Numerals.{add-one}
use preemptive_and_non_preem.Base.{
  ℕ, zero, suc, ◌+◌, ◌*◌, ◌≤◌, ◌<◌, ◌≡◌, refl, ap, true, false, Option, some, List, [], ◌∷◌, Perm,
  drop, length, get_or, update, arith, Bool-cases, inl, inr, ◌==◌,
}
use preemptive_and_non_preem.Base.Weight.{
  weigh, weigh-perm, weigh-cons, weigh-one, count, indicator, marked, weigh-marked,
  weigh-marked_self, total, total-update,
}
use preemptive_and_non_preem.Core.{Process}
use preemptive_and_non_preem.Policy.{Policy}
use preemptive_and_non_preem.Policy.Contract.{Contract, Room}
use preemptive_and_non_preem.Engine.State.{Core, SimOptions, Engine}
use preemptive_and_non_preem.Engine.Census.{seat, is_done, IsOrderOf, census, Balanced}

-- The next arrival, taken off the list of those to come.
pub weigh-drop :
    (g : ℕ → ℕ) (xs : List ℕ) (k : ℕ)
    → k < length xs
    → weigh g (drop k xs) ≡ g (get_or xs k 0) + weigh g (drop (k + 1) xs)
weigh-drop g [] k h = absurd (omega arith)
weigh-drop g (x ∷ xs) zero h = weigh-cons g x xs
weigh-drop g (x ∷ xs) (suc k) h =
    rw (add-one (suc k)) (rw add-one at (weigh-drop g xs k (omega arith)))

seat-update :
    (g : ℕ → ℕ) (cores : ℕ → Core) (c : ℕ) (core : Core) (d : ℕ)
    → seat g (update cores c core d) ≡ update (λ d. seat g (cores d)) c (seat g core) d
seat-update g cores c core d = elim (Bool-cases (c == d)) [ inl e ↦ rw e | inr e ↦ rw e ]

-- Replacing what one core holds.
pub total-seat :
    (g : ℕ → ℕ) (cores : ℕ → Core) (c k : ℕ) (core : Core)
    → c < k
    → total (λ d. seat g (update cores c core d)) k + seat g (cores c)
      ≡ total (λ d. seat g (cores d)) k + seat g core
total-seat g cores c k core h =
    rw (fun_ext (seat-update g cores c core))
      (total-update (λ d. seat g (cores d)) c (seat g core) k h)

count-le-length : (p : ℕ) (xs : List ℕ) → count p xs ≤ length xs
unfolding weigh
count-le-length p [] = omega arith
count-le-length p (x ∷ xs) = ground (arith, count-le-length p xs)

-- A process on a core counts.
pub seat-le-total : (g : ℕ → ℕ) (c k : ℕ) → c < k → g c ≤ total g k
unfolding total
seat-le-total g c zero h = absurd (omega arith)
seat-le-total g c (suc k) h = elim (dec_lt c k) [
  | yes below ↦ omega (arith, seat-le-total g c k below)
  | no last ↦ let e : c ≡ k = omega arith in omega (arith, ap g e)
]

module _ {D S : Type 0} {P : Policy D S} {procs : List Process} (K : Contract P procs)
    (opt : SimOptions D) (order : List ℕ) where
  -- A due arrival may join the ready set.
  pub admit_fits :
      (held : List ℕ) (e : Engine D S)
      → IsOrderOf (length procs) order
      → Balanced K opt order held e
      → e.next < length procs
      → Room (length procs) (K.ready e.state) (get_or order e.next 0)
  unfolding census
  admit_fits held e o b h =
      let p = get_or order e.next 0 in
      let here : indicator p p ≡ 1 = ground arith in
      let all = b.balance (indicator p) in
      let next = weigh-drop (indicator p) order e.next (omega (arith, o.size)) in
      record {
        space = omega (
          arith,
          b.balance (λ x. 1),
          weigh-drop (λ x. 1) order e.next (omega (arith, o.size)),
          weigh-one order,
          weigh-one (K.ready e.state),
          o.size,
        );
        inside = o.inside p (omega (arith, all, next, here));
        absent = omega (arith, all, next, here, o.once p);
      }

  -- A blocked process, or one that is held, may join the ready set.
  pub wake_fits :
      (p : ℕ) (held : List ℕ) (e : Engine D S)
      → IsOrderOf (length procs) order
      → Balanced K opt order held e
      → 0 < count p e.blocked + count p held
      → Room (length procs) (K.ready e.state) p
  unfolding census
  wake_fits p held e o b h =
      let all = b.balance (indicator p) in
      record {
        space = omega (
          arith,
          b.balance (λ x. 1),
          weigh-one order,
          weigh-one (K.ready e.state),
          count-le-length p e.blocked,
          count-le-length p held,
          weigh-one e.blocked,
          weigh-one held,
          o.size,
        );
        inside = o.inside p (omega (arith, all));
        absent = omega (arith, all, o.once p);
      }

  -- A process that is held is listed once in the order of arrival, and is not done.
  pub in_flight :
      (p : ℕ) (held : List ℕ) (e : Engine D S)
      → IsOrderOf (length procs) order
      → Balanced K opt order (p ∷ held) e
      → (count p order ≡ 1) × (is_done e.completion p ≡ false)
  unfolding census
  in_flight p held e o b =
      let all = b.balance (indicator p) in
      let here : indicator p p ≡ 1 = ground arith in
      let one : count p order ≡ 1 =
        omega (arith, all, o.once p, weigh-cons (indicator p) p held, here) in
      (
        one,
        elim (Bool-cases (is_done e.completion p)) [
          | inl done ↦ absurd (
              omega (
                arith,
                all,
                one,
                here,
                weigh-cons (indicator p) p held,
                weigh-marked_self (is_done e.completion) p order done,
              ))
          | inr fresh ↦ fresh
        ],
      )

  -- A core takes a process, or gives it up.
  pub census-cores :
      (g : ℕ → ℕ) (held : List ℕ) (e : Engine D S) (c : ℕ) (core : Core)
      → c < opt.cores
      → census K opt order g held (record e { cores = update e.cores c core }) + seat g (e.cores c)
        ≡ census K opt order g held e + seat g core
  unfolding census
  census-cores g held e c core h = omega (arith, total-seat g e.cores c opt.cores core h)

  pub census-ready :
      (g : ℕ → ℕ) (held : List ℕ) (e : Engine D S) (s : S) (p : ℕ)
      → Perm (K.ready s) (p ∷ K.ready e.state)
      → census K opt order g held (record e { state = s }) ≡ census K opt order g held e + g p
  unfolding census
  census-ready g held e s p perm =
      omega (arith, weigh-perm g perm, weigh-cons g p (K.ready e.state))

  pub census-same :
      (g : ℕ → ℕ) (held : List ℕ) (e : Engine D S) (s : S)
      → K.ready s ≡ K.ready e.state
      → census K opt order g held (record e { state = s }) ≡ census K opt order g held e
  unfolding census
  census-same g held e s same = rw same refl

  pub census-blocked :
      (g : ℕ → ℕ) (held : List ℕ) (e : Engine D S) (xs : List ℕ) (p : ℕ)
      → Perm xs (p ∷ e.blocked)
      → census K opt order g held (record e { blocked = xs }) ≡ census K opt order g held e + g p
  unfolding census
  census-blocked g held e xs p perm = omega (arith, weigh-perm g perm, weigh-cons g p e.blocked)

  pub census-next :
      (g : ℕ → ℕ) (held : List ℕ) (e : Engine D S)
      → e.next < length order
      → census K opt order g held (record e { next = e.next + 1 }) + g (get_or order e.next 0)
        ≡ census K opt order g held e
  unfolding census
  census-next g held e h = omega (arith, weigh-drop g order e.next h)

  pub census-held :
      (g : ℕ → ℕ) (p : ℕ) (held : List ℕ) (e : Engine D S)
      → census K opt order g (p ∷ held) e ≡ census K opt order g held e + g p
  unfolding census
  census-held g p held e = omega (arith, weigh-cons g p held)

  is_done-update :
      (completion : ℕ → Option ℕ) (p t x : ℕ)
      → is_done (update completion p (some t)) x ≡ update (is_done completion) p true x
  is_done-update completion p t x = elim (Bool-cases (p == x)) [
    | inl e ↦ rw (e, is_done) refl
    | inr e ↦ rw (e, is_done) refl
  ]

  pub census-completion :
      (g : ℕ → ℕ) (held : List ℕ) (e : Engine D S) (p t : ℕ)
      → is_done e.completion p ≡ false
      → count p order ≡ 1
      → census K opt order g held (record e { completion = update e.completion p (some t) })
        ≡ census K opt order g held e + g p
  unfolding census
  census-completion g held e p t fresh one = rw (fun_ext (is_done-update e.completion p t)) (
      omega
        (arith, weigh-marked (is_done e.completion) g p order fresh, ap (λ (k : ℕ). k * g p) one))

  -- One more completion is one more process that is done.
  pub counted-completion :
      (e : Engine D S) (p t : ℕ)
      → is_done e.completion p ≡ false
      → count p order ≡ 1
      → e.completed ≡ weigh (marked (is_done e.completion) (λ x. 1)) order
      → e.completed + 1 ≡ weigh (marked (is_done (update e.completion p (some t))) (λ x. 1)) order
  counted-completion e p t fresh one before =
      rw (fun_ext (is_done-update e.completion p t))
        (omega (arith, weigh-marked (is_done e.completion) (λ x. 1) p order fresh, before))
