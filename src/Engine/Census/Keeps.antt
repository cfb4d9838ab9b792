-- ===== src/Engine/Census/Keeps.antt =====
-- Operations that move no process: they leave the census as it is.
use preemptive_and_non_preem.Base.{
  ℕ, ◌<◌, ◌≡◌, refl, not, ◌||◌, none, some, List, if_holds, leb, update, arith, ◌∙◌, inl, inr,
  Option-cases,
}
use preemptive_and_non_preem.Base.Int.{pos, pos_part, int64_max}
use preemptive_and_non_preem.Util.Checked.{ck_add_i64}
use preemptive_and_non_preem.Core.{Process, Workload}
use preemptive_and_non_preem.Policy.{Float, Policy}
use preemptive_and_non_preem.Policy.Contract.{Contract}
use preemptive_and_non_preem.Engine.State.{
  Core, SimOptions, Segment, Engine, EngineFail, overflow, append, add_time, extends, is_fine,
}
use preemptive_and_non_preem.Engine.Step.{predict_next}
use preemptive_and_non_preem.Engine.Census.{seat, census, Balanced}
use preemptive_and_non_preem.Engine.Census.Moves.{census-cores}

module _ {D S : Type 0} {P : Policy D S} {procs : List Process} (K : Contract P procs)
    (opt : SimOptions D) (order : List ℕ) where
  -- Two engines that agree on everything that the census reads.
  pub record SamePlaces (e e' : Engine D S) : Type 0 where
    pub state : e'.state ≡ e.state
    pub next : e'.next ≡ e.next
    pub blocked : e'.blocked ≡ e.blocked
    pub cores : e'.cores ≡ e.cores
    pub completion : e'.completion ≡ e.completion
    pub completed : e'.completed ≡ e.completed

  pub SamePlaces-refl : (e : Engine D S) → SamePlaces e e
  SamePlaces-refl e = record {
    state = refl;
    next = refl;
    blocked = refl;
    cores = refl;
    completion = refl;
    completed = refl;
  }

  pub SamePlaces-trans :
      {e1 e2 e3 : Engine D S} → SamePlaces e1 e2 → SamePlaces e2 e3 → SamePlaces e1 e3
  SamePlaces-trans s t = record {
    state = t.state ∙ s.state;
    next = t.next ∙ s.next;
    blocked = t.blocked ∙ s.blocked;
    cores = t.cores ∙ s.cores;
    completion = t.completion ∙ s.completion;
    completed = t.completed ∙ s.completed;
  }

  pub census-SamePlaces :
      (g : ℕ → ℕ) (held : List ℕ) {e e' : Engine D S}
      → SamePlaces e e'
      → census K opt order g held e' ≡ census K opt order g held e
  unfolding census
  census-SamePlaces g held s = rw (s.state, s.next, s.blocked, s.cores, s.completion) refl

  pub append-SamePlaces :
      (w : Workload) (e : Engine D S) (c : ℕ) (s : Segment) → SamePlaces e (append w opt e c s)
  unfolding append
  append-SamePlaces w e c s =
      if_holds (SamePlaces e) (leb s.end s.start || not (is_fine e.fail)) (λ _. same)
        (λ _.
          if_holds (SamePlaces e) (extends (e.timelines c) s) (λ _. same)
            (λ _.
              if_holds (SamePlaces e) (leb opt.max_segments e.segments) (λ _. same) (λ _. same)))
    where
      same :
          {tl : ℕ → List Segment} {k : ℕ} {x : EngineFail}
          → SamePlaces e (record e { timelines = tl; segments = k; fail = x })
      same = record {
        state = refl;
        next = refl;
        blocked = refl;
        cores = refl;
        completion = refl;
        completed = refl;
      }

  pub add_time-SamePlaces : (e : Engine D S) (a b : ℕ) → SamePlaces e (add_time e a b).1
  unfolding add_time
  add_time-SamePlaces e a b =
      elim (ck_add_i64 (pos a) (pos b))
        as (λ o.
          SamePlaces e
            (elim o as (λ x. ℕ × Engine D S) [
              | none ↦ (int64_max, record e { fail = overflow })
              | some r ↦ (pos_part r, e)
            ]).1) [
              | none ↦ record {
                state = refl;
                next = refl;
                blocked = refl;
                cores = refl;
                completion = refl;
                completed = refl;
              }
              | some r ↦ SamePlaces-refl e
            ]

  pub predict_next-SamePlaces :
      (f : Float D) (w : Workload) (e : Engine D S) (p : ℕ)
      → SamePlaces e (predict_next f P w opt order e p)
  unfolding predict_next
  predict_next-SamePlaces f w e p = elim (Option-cases e.predicted) [
    | inl h ↦ simp (h, predict_next) (SamePlaces-refl e)
    | inr (tau, h) ↦
        simp (h, predict_next)
          (record {
            state = refl;
            next = refl;
            blocked = refl;
            cores = refl;
            completion = refl;
            completed = refl;
          })
  ]

  pub Balanced-SamePlaces :
      (held : List ℕ) {e e' : Engine D S}
      → SamePlaces e e'
      → Balanced K opt order held e
      → Balanced K opt order held e'
  Balanced-SamePlaces held s b = record {
    balance = λ g. census-SamePlaces g held s ∙ b.balance g;
    good = rw s.state b.good;
    admitted = rw s.next b.admitted;
    counted = rw (s.completed, s.completion) b.counted;
  }

  -- Changing what a core knows about the process that it has.
  pub Balanced-core :
      (held : List ℕ) (e : Engine D S) (c : ℕ) (core : Core)
      → c < opt.cores
      → core.proc ≡ (e.cores c).proc
      → Balanced K opt order held e
      → Balanced K opt order held (record e { cores = update e.cores c core })
  Balanced-core held e c core h same b = record {
    balance = λ g.
        let unchanged : seat g core ≡ seat g (e.cores c) = rw same refl in
        omega (arith, census-cores K opt order g held e c core h, b.balance g, unchanged);
    good = b.good;
    admitted = b.admitted;
    counted = b.counted;
  }
