-- ===== src/Engine/Census/Alike.antt =====
-- What a segment, a new prediction and a sum of times leave alone in the engine.
use preemptive_and_non_preem.Base.{
  ℕ, ◌==◌, ◌+◌, ◌≡◌, refl, ap, ◌∙◌, true, not, ◌||◌, some, List, if_holds, Option_holds, update,
  arith, ◌⊎◌, inl, inr, leb,
}
use preemptive_and_non_preem.Base.Int.{ℤ, pos, pos_part, ◌+ℤ◌, ◌-ℤ◌}
use preemptive_and_non_preem.Core.{Workload}
use preemptive_and_non_preem.Policy.{Float, Policy}
use preemptive_and_non_preem.Util.Checked.{ck_add_i64}
use preemptive_and_non_preem.Engine.State.{
  SimOptions, Segment, Engine, overflow, append, add_time, is_fine, extends,
}
use preemptive_and_non_preem.Engine.Step.{predict_next}

-- What a segment, a prediction and a failure leave alone.
pub record Alike {D S : Type 0} (e e' : Engine D S) : Type 0 where
  pub state : e'.state ≡ e.state
  pub now : e'.now ≡ e.now
  pub blocked : e'.blocked ≡ e.blocked
  pub cores : e'.cores ≡ e.cores
  pub completion : e'.completion ≡ e.completion
  pub completed : e'.completed ≡ e.completed
  pub phase : e'.phase ≡ e.phase
  pub remaining : e'.remaining ≡ e.remaining

-- That, without the cores and the times left.
pub record Near {D S : Type 0} (e e' : Engine D S) : Type 0 where
  pub state : e'.state ≡ e.state
  pub now : e'.now ≡ e.now
  pub blocked : e'.blocked ≡ e.blocked
  pub completion : e'.completion ≡ e.completion
  pub completed : e'.completed ≡ e.completed
  pub phase : e'.phase ≡ e.phase

pub Near-Alike : {D S : Type 0} {e x y : Engine D S} → Near e x → Alike x y → Near e y
Near-Alike near same = record {
  state = same.state ∙ near.state;
  now = same.now ∙ near.now;
  blocked = same.blocked ∙ near.blocked;
  completion = same.completion ∙ near.completion;
  completed = same.completed ∙ near.completed;
  phase = same.phase ∙ near.phase;
}

pub Alike-refl : {D S : Type 0} (e : Engine D S) → Alike e e
Alike-refl e = record {
  state = refl;
  now = refl;
  blocked = refl;
  cores = refl;
  completion = refl;
  completed = refl;
  phase = refl;
  remaining = refl;
}

pub add_time-Alike : {D S : Type 0} (e : Engine D S) (a b : ℕ) → Alike e (add_time e a b).1
unfolding add_time
add_time-Alike e a b =
    Option_holds (λ (r : ℕ × Engine _ _). Alike e r.1) (ck_add_i64 (pos a) (pos b))
      (record {
        state = refl;
        now = refl;
        blocked = refl;
        cores = refl;
        completion = refl;
        completed = refl;
        phase = refl;
        remaining = refl;
      })
      (λ r _. Alike-refl e)

ck_add_i64-sum : (a b : ℕ) (r : ℤ) → ck_add_i64 (pos a) (pos b) ≡ some r → r ≡ pos (a + b)
unfolding ck_add_i64 ◌+ℤ◌ ◌-ℤ◌
ck_add_i64-sum a b r h = ground arith

pub add_time-sum :
    {D S : Type 0} (e : Engine D S) (a b : ℕ)
    → ((add_time e a b).0 ≡ a + b) ⊎ ((add_time e a b).1.fail ≡ overflow)
unfolding add_time
add_time-sum {D} {S} e a b =
    Option_holds (λ (r : ℕ × Engine D S). (r.0 ≡ a + b) ⊎ (r.1.fail ≡ overflow))
      (ck_add_i64 (pos a) (pos b)) (inr refl) (λ r h. inl (ap pos_part (ck_add_i64-sum a b r h)))

itself : (p : ℕ) → (p == p) ≡ true
itself p = ground arith

pub updated : {A : Type 0} (g : ℕ → A) (p : ℕ) (v : A) → update g p v p ≡ v
updated g p v = rw (itself p) refl

module _ {D S : Type 0} (f : Float D) (P : Policy D S) (w : Workload) (opt : SimOptions D)
    (order : List ℕ) where
  pub append-Alike : (e : Engine D S) (c : ℕ) (s : Segment) → Alike e (append w opt e c s)
  unfolding append
  append-Alike e c s =
      if_holds (Alike e) (leb s.end s.start || not (is_fine e.fail)) (λ _. Alike-refl e)
        (λ _.
          if_holds (Alike e) (extends (e.timelines c) s)
            (λ _. (record {
              state = refl;
              now = refl;
              blocked = refl;
              cores = refl;
              completion = refl;
              completed = refl;
              phase = refl;
              remaining = refl;
            }))
            (λ _.
              if_holds (Alike e) (leb opt.max_segments e.segments)
                (λ _. (record {
                  state = refl;
                  now = refl;
                  blocked = refl;
                  cores = refl;
                  completion = refl;
                  completed = refl;
                  phase = refl;
                  remaining = refl;
                }))
                (λ _. (record {
                  state = refl;
                  now = refl;
                  blocked = refl;
                  cores = refl;
                  completion = refl;
                  completed = refl;
                  phase = refl;
                  remaining = refl;
                }))))

  pub predict_next-Alike : (e : Engine D S) (p : ℕ) → Alike e (predict_next f P w opt order e p)
  unfolding predict_next
  predict_next-Alike e p = Option_holds (Alike e) e.predicted (Alike-refl e) (λ tau _. (record {
    state = refl;
    now = refl;
    blocked = refl;
    cores = refl;
    completion = refl;
    completed = refl;
    phase = refl;
    remaining = refl;
  }))
