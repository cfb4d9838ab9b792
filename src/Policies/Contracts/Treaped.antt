-- ===== src/Policies/Contracts/Treaped.antt =====
-- The two priority policies keep the contract, for processes with distinct pids: their ready set is
-- what the treap holds.
use mathlib.Core.Option
use preemptive_and_non_preem.Base.{
  ℕ, ◌≡◌, refl, sym, ap, true, false, Option, none, some, List, [], ◌∷◌, Bool, arith, Perm, length,
  update,
}
use preemptive_and_non_preem.Base.Weight.{indicator, weigh-cons}
use preemptive_and_non_preem.Base.Counts.{counts-perm, nothing_counts}
use preemptive_and_non_preem.Core.{Process}
use preemptive_and_non_preem.Policy.{HasDistinctPids, View, PolicyParams, Slice, Policy}
use preemptive_and_non_preem.Policy.Contract.{Room, Contract, Answers, Answers-none, Answers-some}
use preemptive_and_non_preem.Policies.Prio.{
  pick, create, prio_create, prio_p_create, enqueue, prio_new_burst, prio_requeue, take_slice,
  prio_next_slice, policy_prio, policy_prio_p,
}
use preemptive_and_non_preem.Policies.Prio.Tree.{leaf, Prio, inorder}
use preemptive_and_non_preem.Policies.Prio.Shape.{Has-leaf, copies-leaf}
use preemptive_and_non_preem.Policies.Prio.Sound.{IsSound}
use preemptive_and_non_preem.Policies.Prio.Hooks.{
  enqueue-IsSound, waited-IsSound, take_slice-IsSound,
}
use preemptive_and_non_preem.Policies.Prio.Choice.{IsQueued, pick-IsQueued}

abbrev ready : Prio → List ℕ
ready s = inorder s.root

start-IsSound :
    (procs : List Process) (s s' : Prio)
    → s ≡ s'
    → s.procs ≡ procs
    → s.root ≡ leaf
    → IsSound procs s' × (ready s' ≡ [])
unfolding inorder
start-IsSound procs s s' made same empty = rw (sym made) (
  record {
    view = same;
    tree = rw empty tt;
    inside = λ y q. absurd (Has-leaf y (rw empty at q));
    once = λ y. rw empty (omega (arith, copies-leaf y));
    keyed = λ y q. absurd (Has-leaf y (rw empty at q));
  },
  rw empty refl,
)

create-IsSound :
    (procs : List Process) {D : Type 0} (preemptive : Bool) (v : View D) (params : PolicyParams)
    (s : Prio)
    → v.procs ≡ procs
    → create preemptive v params ≡ some s
    → IsSound procs s × (ready s ≡ [])
unfolding create
create-IsSound procs preemptive v params s same made =
    start-IsSound procs _ s (Option.some-injective _ _ made) same refl

took : {D : Type 0} (v : View D) (s : Prio) (p : ℕ) → (take_slice v s p).0.proc ≡ p
unfolding take_slice
took v s p = refl

module _ {procs : List Process} (pids : HasDistinctPids procs) {D : Type 0} where
  joined :
      (v : View D) (s : Prio) (p : ℕ)
      → IsSound procs s
      → Room (length procs) (ready s) p
      → IsSound procs (enqueue v s p) × Perm (ready (enqueue v s p)) (p ∷ ready s)
  joined v s p sound room =
      let (kept, all) = enqueue-IsSound pids v s p sound room in
      (kept, counts-perm _ _ (λ y. omega (arith, all y, weigh-cons (indicator y) p (ready s))))

  pub joined_fresh :
      (v : View D) (s : Prio) (p : ℕ)
      → IsSound procs s
      → Room (length procs) (ready s) p
      → IsSound procs (prio_new_burst v s p) × Perm (ready (prio_new_burst v s p)) (p ∷ ready s)
  unfolding prio_new_burst
  joined_fresh v s p sound room =
      joined v (record s { waited = update s.waited p 0 }) p
        (waited-IsSound pids s p 0 sound room.absent) room

  -- What a call of `next_slice` answers, for either policy.
  answers :
      (P : Policy D Prio) (v : View D) (s : Prio)
      → IsSound procs s
      → IsSound procs (prio_next_slice v s).1 × Answers P ready s (prio_next_slice v s)
  unfolding prio_next_slice
  answers P v s sound = answer (pick s v.now) (pick-IsQueued s v.now sound.tree)
    where
      answer :
          (o : Option ℕ)
          → IsQueued s o
          → IsSound procs
              (elim o as (λ x. Option Slice × Prio) [
                | none ↦ (none, s)
                | some p ↦ (some (take_slice v s p).0, (take_slice v s p).1)
              ]).1
            × Answers P ready s (elim o as (λ x. Option Slice × Prio) [
              | none ↦ (none, s)
              | some p ↦ (some (take_slice v s p).0, (take_slice v s p).1)
            ])
      answer none h = (sound, Answers-none P ready s (nothing_counts (ready s) h))
      answer (some p) h =
          let (kept, all) = take_slice-IsSound pids v s p sound h in
          (
            kept,
            Answers-some P ready s _ _ (
                counts-perm _ _ (λ y. omega (
                  arith,
                  all y,
                  weigh-cons (indicator y) (take_slice v s p).0.proc (ready (take_slice v s p).1),
                  ap (indicator y) (took v s p),
                ))),
          )

  -- For processes with distinct pids: non-preemptive priority scheduling keeps the contract.
  pub prio-Contract : Contract (policy_prio D) procs
  unfolding policy_prio prio_create
  prio-Contract = record {
    IsGood = IsSound procs;
    ready = ready;
    creates = λ v params s same _ made. create-IsSound procs false v params s same made;
    arrives = λ v s p sound room. joined_fresh v s p sound room;
    wakes = λ v s p sound room. joined_fresh v s p sound room;
    preempts = λ v s p ran _ _ h. absurd (h refl);
    blocks = λ v s p ran sound. (sound, refl);
    completes = λ v s p ran sound. (sound, refl);
    picks = λ v s sound. answers (policy_prio D) v s sound;
  }

  -- For processes with distinct pids: preemptive priority scheduling keeps the contract.
  pub prio_p-Contract : Contract (policy_prio_p D) procs
  unfolding policy_prio_p prio_p_create prio_requeue
  prio_p-Contract = record {
    IsGood = IsSound procs;
    ready = ready;
    creates = λ v params s same _ made. create-IsSound procs true v params s same made;
    arrives = λ v s p sound room. joined_fresh v s p sound room;
    wakes = λ v s p sound room. joined_fresh v s p sound room;
    preempts = λ v s p ran sound room _. joined v s p sound room;
    blocks = λ v s p ran sound. (sound, refl);
    completes = λ v s p ran sound. (sound, refl);
    picks = λ v s sound. answers (policy_prio_p D) v s sound;
  }
