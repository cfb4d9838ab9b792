-- ===== src/Engine/Census/Finish.antt =====
-- The event loop, round by round: where it stops, and what is then left.
use preemptive_and_non_preem.Base.{
  ℕ, zero, suc, ◌<◌, ◌≤◌, ◌≡◌, ◌≢◌, refl, ap, Bool, true, false, ◌&&◌, none, some, List, [], ◌∷◌,
  if◌then◌else◌, ltb, update, arith, length, inl, inr, Bool-cases, ◌⊎◌,
}
use native.Mathlib.Decide.{dec_lt}
use preemptive_and_non_preem.Base.Weight.{
  weigh, weigh-one, count, marked, weigh-marked, total, indicator,
}
use preemptive_and_non_preem.Core.{Workload}
use preemptive_and_non_preem.Policy.{Float, Policy, PolicyParams}
use preemptive_and_non_preem.Policy.Contract.{Contract}
use preemptive_and_non_preem.Engine.State.{Core, SimOptions, Engine, is_fine}
use preemptive_and_non_preem.Engine.Run.{
  event_step, rounds, event_loop, order_of, first_view, initial,
}
use preemptive_and_non_preem.Engine.Dispatch.{process_instant}
use preemptive_and_non_preem.Engine.Census.{IsOrderOf, census, Balanced, seat, is_done}
use preemptive_and_non_preem.Engine.Census.Instant.{
  initial-Balanced, process_instant-Balanced, event_step-Balanced,
}
use preemptive_and_non_preem.Engine.Census.Order.{order_of-IsOrderOf}

-- Marks on as many entries as there are mark every entry.
marked-le-length : (test : ℕ → Bool) (xs : List ℕ) → weigh (marked test (λ x. 1)) xs ≤ length xs
unfolding weigh
marked-le-length test [] = omega arith
marked-le-length test (x ∷ xs) = ground (arith, marked-le-length test xs)

all_marked :
    (test : ℕ → Bool) (p : ℕ) (xs : List ℕ)
    → length xs ≤ weigh (marked test (λ x. 1)) xs
    → 0 < count p xs
    → test p ≡ true
all_marked test p xs enough listed = elim (Bool-cases (test p)) [
  | inl done ↦ done
  | inr fresh ↦ absurd (
      omega
        (arith, weigh-marked test (λ x. 1) p xs fresh, marked-le-length (update test p true) xs))
]

-- A sum that vanishes has no summand.
total-none : (g : ℕ → ℕ) (k c : ℕ) → total g k ≡ 0 → c < k → g c ≡ 0
unfolding total
total-none g zero c h hi = absurd (omega arith)
total-none g (suc k) c h hi = elim (dec_lt c k) [
  | yes below ↦ total-none g k c (omega (arith, h)) below
  | no last ↦ let e : c ≡ k = omega (arith, hi, last) in omega (arith, h, ap g e)
]

seat_vacant : (core : Core) → seat (λ x. 1) core ≡ 0 → core.proc ≡ none
seat_vacant core h = ground arith

list_vacant : (xs : List ℕ) → weigh (λ x. 1) xs ≡ 0 → xs ≡ []
unfolding weigh
list_vacant [] h = refl
list_vacant (x ∷ xs) h = absurd (omega arith)

-- Where not all entries are marked, one is not.
unmarked :
    (test : ℕ → Bool) (xs : List ℕ)
    → weigh (marked test (λ x. 1)) xs < length xs
    → (p : ℕ) × (0 < count p xs) × (test p ≡ false)
unfolding weigh
unmarked test [] h = absurd (omega (arith, h))
unmarked test (x ∷ xs) h = elim (Bool-cases (test x)) [
  | inl done ↦
      let fewer : weigh (marked test (λ y. 1)) xs < length xs = ground (arith, h, done) in
      let (p, there, fresh) = unmarked test xs fewer in (p, omega (arith, there), fresh)
  | inr fresh ↦ let here : indicator x x ≡ 1 = ground arith in (x, omega (arith, here), fresh)
]

loop_test :
    (more good : Bool) {A : Type 0} (x y : A)
    → (good ≡ false → (if more && good then x else y) ≡ y)
      × (more ≡ false → (if more && good then x else y) ≡ y)
      × (more ≡ true → good ≡ true → (if more && good then x else y) ≡ x)
loop_test true true x y = (λ h. cc, λ h. cc, λ _ _. refl)
loop_test true false x y = (λ _. refl, λ h. cc, λ _ h. cc)
loop_test false true x y = (λ h. cc, λ _. refl, λ h _. cc)
loop_test false false x y = (λ _. refl, λ _. refl, λ h _. cc)

module _ {D S : Type 0} (f : Float D) {P : Policy D S} (w : Workload) (opt : SimOptions D)
    (order : List ℕ) (K : Contract P w.items) (o : IsOrderOf (length w.items) order) where
  -- Every process is completed; none is ready, blocked or on a core.
  pub record Completed (e : Engine D S) : Type 0 where
    pub done : (p : ℕ) → p < length w.items → is_done e.completion p ≡ true
    pub none_ready : K.ready e.state ≡ []
    pub none_blocked : e.blocked ≡ []
    pub none_on_core : (c : ℕ) → c < opt.cores → (e.cores c).proc ≡ none

  -- When the completions have reached the number of processes, the census leaves no room elsewhere.
  Balanced-Completed :
      (e : Engine D S) → Balanced K opt order [] e → length w.items ≤ e.completed → Completed e
  unfolding census
  Balanced-Completed e b enough =
      let full : length order ≤ weigh (marked (is_done e.completion) (λ x. 1)) order =
        omega (arith, b.counted, o.size) in
      let here = b.balance (λ x. 1) in
      record {
        done = λ p h. all_marked (is_done e.completion) p order full (omega (arith, o.every p h));
        none_ready = list_vacant _ (omega (arith, here, weigh-one order, full));
        none_blocked = list_vacant _ (omega (arith, here, weigh-one order, full));
        none_on_core = λ c h. seat_vacant (e.cores c) (
            total-none (λ d. seat (λ x. 1) (e.cores d)) opt.cores c
              (omega (arith, here, weigh-one order, full)) h);
      }

  -- What the test of the event loop does with an engine: it stops at a failure, and where every process is
  -- done; it goes on where one is not.
  pub record Decided (e : Engine D S) : Type 0 where
    pub balanced : Balanced K opt order [] e
    pub verdict :
        ((is_fine e.fail ≡ false) × ((fuel : ℕ) → event_loop f P w opt order (suc fuel) e ≡ some e))
        ⊎ (Completed e × ((fuel : ℕ) → event_loop f P w opt order (suc fuel) e ≡ some e))
        ⊎ ((p : ℕ) × (p < length w.items)
            × (is_done e.completion p ≡ false)
            × ((fuel : ℕ)
                → event_loop f P w opt order (suc fuel) e
                  ≡ event_loop f P w opt order fuel (event_step f P w opt order e)))

  Balanced-Decided : (e : Engine D S) → Balanced K opt order [] e → Decided e
  unfolding event_loop
  Balanced-Decided e b =
      let more = ltb e.completed (length w.items) in
      let good = is_fine e.fail in
      record {
        balanced = b;
        verdict = elim (Bool-cases good) [
          | inr failed ↦ inl (
            failed,
            λ fuel.
                (loop_test more good
                    (event_loop f P w opt order fuel (event_step f P w opt order e)) (some e)).0
                  failed,
          )
          | inl fine ↦ elim (Bool-cases more) [
            | inr stop ↦ inr (
                inl (
                  Balanced-Completed e b (ground (arith, stop)),
                  λ fuel.
                      (loop_test more good
                          (event_loop f P w opt order fuel (event_step f P w opt order e))
                          (some e)).1
                        stop,
                ))
            | inl onward ↦
                let (p, listed, fresh) =
                  unmarked (is_done e.completion) order
                    (ground (arith, onward, b.counted, o.size)) in
                inr (
                  inr (
                    p,
                    o.inside p listed,
                    fresh,
                    λ fuel.
                        (loop_test more good
                            (event_loop f P w opt order fuel (event_step f P w opt order e))
                            (some e)).2
                          onward fine,
                  ))
          ]
        ];
      }

  rounds-Balanced :
      (k : ℕ) (e : Engine D S)
      → P.on_preempt ≢ none
      → Balanced K opt order [] e
      → Balanced K opt order [] (rounds f P w opt order k e)
  unfolding rounds
  rounds-Balanced zero e can b = b
  rounds-Balanced (suc k) e can b =
      event_step-Balanced f w opt order K o can _ (rounds-Balanced k e can b)

module _ {D S : Type 0} (f : Float D) {P : Policy D S} (w : Workload) (K : Contract P w.items) where
  -- The engine with which `sim_run` enters the event loop.
  abbrev pub entered : SimOptions D → S → Engine D S
  entered opt s =
      let order = order_of w in process_instant f P w opt order (initial f P w opt order s)

  -- For a policy with an `on_preempt` hook that keeps the contract, from the state that it creates, after
  -- any number of rounds: each process is in exactly one place, and the test of the event loop is right.
  -- It stops at a failure of the engine; it stops where every process has a completion and none is ready
  -- at the policy, blocked or on a core; and otherwise a process has no completion, and it goes on.
  pub rounds-Decided :
      (params : PolicyParams) (opt : SimOptions D) (s : S) (k : ℕ)
      → P.on_preempt ≢ none
      → P.create (first_view f P w opt (order_of w)) params ≡ some s
      → Decided f w opt
          (order_of w)
          K
          (order_of-IsOrderOf w)
          (rounds f P w opt (order_of w) k (entered opt s))
  rounds-Decided params opt s k can created =
      let order = order_of w in
      let o = order_of-IsOrderOf w in
      let (good, nobody) = K.creates (first_view f P w opt order) params s refl refl created in
      Balanced-Decided f w opt order K o _ (
        rounds-Balanced f w opt order K o k _ can (
          process_instant-Balanced f w opt order K o can _
            (initial-Balanced f w opt order K o can s good nobody)))
