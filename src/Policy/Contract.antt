-- ===== src/Policy/Contract.antt =====
-- What the engine relies on: a policy holds a set of ready processes, which an arrival, a wake-up
-- and a preemption extend by the process, and which a slice takes its process from.
use preemptive_and_non_preem.Base.{
  ℕ, ◌<◌, ◌≡◌, ◌≢◌, true, Option, none, some, List, [], ◌∷◌, Perm, length,
}
use mathlib.Core.List.Perm
use mathlib.Core.Path.{subst}
use preemptive_and_non_preem.Base.Weight.{count}
use preemptive_and_non_preem.Core.{Process}
use preemptive_and_non_preem.Policy.{View, PolicyParams, Slice, Policy}

-- A process that may join the ready set: one of the `n`, and not in it yet.
pub record Room (n : ℕ) (ready : List ℕ) (p : ℕ) : Type 0 where
  pub space : length ready < n
  pub inside : p < n
  pub absent : count p ready ≡ 0

module _ {D S : Type 0} (P : Policy D S) where
  -- `on_ready`, or `on_arrival` where it is NULL.
  abbrev pub wake : View D → S → ℕ → S
  wake v s p = elim P.on_ready [ none ↦ P.on_arrival v s p | some f ↦ f v s p ]

  -- An optional hook that keeps the state where it is NULL.
  abbrev pub hook : Option (View D → S → ℕ → ℕ → S) → View D → S → ℕ → ℕ → S
  hook h v s p ran = elim h [ none ↦ s | some f ↦ f v s p ran ]

  -- What one call of `next_slice` may answer on a ready set.
  pub record Answers (ready : S → List ℕ) (s : S) (r : Option Slice × S) : Type 0 where
    pub declines : r.0 ≡ none → Perm (ready r.1) (ready s)
    pub conserves : r.0 ≡ none → P.work_conserving ≡ true → ready s ≡ []
    pub takes : (sl : Slice) → r.0 ≡ some sl → Perm (ready s) (sl.proc ∷ ready r.1)

  -- The contract for a list of processes: `IsGood` is the policy's own invariant.
  pub record Contract (procs : List Process) : Type 1 where
    pub IsGood : S → Type 0
    pub ready : S → List ℕ
    pub creates :
        (v : View D) (params : PolicyParams) (s : S)
        → v.procs ≡ procs
        → v.n ≡ length procs
        → P.create v params ≡ some s
        → IsGood s × (ready s ≡ [])
    pub arrives :
        (v : View D) (s : S) (p : ℕ)
        → IsGood s
        → Room (length procs) (ready s) p
        → IsGood (P.on_arrival v s p) × Perm (ready (P.on_arrival v s p)) (p ∷ ready s)
    pub wakes :
        (v : View D) (s : S) (p : ℕ)
        → IsGood s
        → Room (length procs) (ready s) p
        → IsGood (wake v s p) × Perm (ready (wake v s p)) (p ∷ ready s)
    pub preempts :
        (v : View D) (s : S) (p ran : ℕ)
        → IsGood s
        → Room (length procs) (ready s) p
        → P.on_preempt ≢ none
        → IsGood (hook P.on_preempt v s p ran)
          × Perm (ready (hook P.on_preempt v s p ran)) (p ∷ ready s)
    pub blocks :
        (v : View D) (s : S) (p ran : ℕ)
        → IsGood s
        → IsGood (hook P.on_block v s p ran) × (ready (hook P.on_block v s p ran) ≡ ready s)
    pub completes :
        (v : View D) (s : S) (p ran : ℕ)
        → IsGood s
        → IsGood (hook P.on_complete v s p ran) × (ready (hook P.on_complete v s p ran) ≡ ready s)
    pub picks :
        (v : View D) (s : S)
        → IsGood s
        → IsGood (P.next_slice v s).1 × Answers ready s (P.next_slice v s)

  pub Answers-none : (ready : S → List ℕ) (s : S) → ready s ≡ [] → Answers ready s (none, s)
  Answers-none ready s e = record {
    declines = λ _. Perm.rfl;
    conserves = λ _ _. e;
    takes = λ sl h. cc;
  }

  pub Answers-some :
      (ready : S → List ℕ) (s t : S) (sl : Slice)
      → Perm (ready s) (sl.proc ∷ ready t)
      → Answers ready s (some sl, t)
  Answers-some ready s t sl perm = record {
    declines = λ h. cc;
    conserves = λ h. cc;
    takes = λ sl' h. let e : sl ≡ sl' = cc in subst (λ x. Perm (ready s) (x.proc ∷ ready t)) e perm;
  }
