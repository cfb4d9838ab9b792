-- ===== src/Policies/Prio/Sound.antt =====
-- src/policies/priority.c: the invariant of the policy's state, and the keys of the queued processes.
use preemptive_and_non_preem.Base.{
  ℕ, ◌<◌, ◌≤◌, ◌≡◌, refl, ◌∙◌, Option, none, some, List, length, ltb, if◌then◌else◌,
}
use preemptive_and_non_preem.Base.Int.{ℤ, pos, ◌-ℤ◌, ◌*ℤ◌}
use preemptive_and_non_preem.Core.{Process}
use preemptive_and_non_preem.Policy.{proc_at}
use preemptive_and_non_preem.Policies.Prio.{floor_div}
use preemptive_and_non_preem.Policies.Prio.Tree.{
  Treap, leaf, node, Prio, sat_sub, key_less, node_before,
}
use preemptive_and_non_preem.Policies.Prio.Best.{IsBest}
use preemptive_and_non_preem.Policies.Prio.Shape.{
  Has, copies, IsTreap, Has-left, Has-right, Has-root,
}

-- How long the process had waited when it joined the queue, less the time at which it did.
abbrev pub offset : Prio → ℕ → ℤ
offset s y = pos (s.waited y) -ℤ pos (s.ready_since y)

-- The keys of a queued process.
abbrev pub IsKeyed : Prio → ℕ → Type 0
IsKeyed s y =
    if ltb 0 s.aging
    then (s.r y ≡ offset s y -ℤ floor_div (offset s y) s.aging *ℤ s.aging)
      × (s.base y ≡ sat_sub (proc_at s.procs y).priority (floor_div (offset s y) s.aging))
    else (s.r y ≡ pos 0) × (s.base y ≡ (proc_at s.procs y).priority)

pub record IsSound (procs : List Process) (s : Prio) : Type 0 where
  pub view : s.procs ≡ procs
  pub tree : IsTreap s s.root
  pub inside : (y : ℕ) → Has s.root y → y < length procs
  pub once : (y : ℕ) → copies y s.root ≤ 1
  pub keyed : (y : ℕ) → Has s.root y → IsKeyed s y

-- A state in which a process has the same keys.
pub record Agrees (s s' : Prio) (y : ℕ) : Type 0 where
  pub r : s'.r y ≡ s.r y
  pub base : s'.base y ≡ s.base y
  pub waited : s'.waited y ≡ s.waited y
  pub ready_since : s'.ready_since y ≡ s.ready_since y

module _ (s s' : Prio) (procs : s'.procs ≡ s.procs) where
  node_before-Agrees :
      (x y : ℕ) → Agrees s s' x → Agrees s s' y → node_before s' x y ≡ node_before s x y
  unfolding node_before
  node_before-Agrees x y a b = rw (procs, a.r, b.r) refl

  key_less-Agrees :
      (x y : ℕ) (bx by_ : ℤ)
      → Agrees s s' x
      → Agrees s s' y
      → key_less s' x bx y by_ ≡ key_less s x bx y by_
  unfolding key_less
  key_less-Agrees x y bx by_ a b = rw (procs, a.base, b.base) refl

  IsBest-Agrees :
      (Q : ℕ → Type 0) (o : Option ℕ)
      → ((y : ℕ) → Q y → Agrees s s' y)
      → IsBest s Q o
      → IsBest s' Q o
  IsBest-Agrees Q none a h = h
  IsBest-Agrees Q (some b) a h =
      (h.0, λ y q. key_less-Agrees y b (pos 0) (pos 0) (a y q) (a b h.0) ∙ h.1 y q)

  pub IsTreap-Agrees :
      (t : Treap) → ((y : ℕ) → Has t y → Agrees s s' y) → IsTreap s t → IsTreap s' t
  IsTreap-Agrees leaf a h = tt
  IsTreap-Agrees (node l x b r) a (left, right, lows, highs, best) = (
    IsTreap-Agrees l (λ y q. a y (Has-left l x b r y q)) left,
    IsTreap-Agrees r (λ y q. a y (Has-right l x b r y q)) right,
    λ y q. node_before-Agrees y x (a y (Has-left l x b r y q)) (a x (Has-root l x b r)) ∙ lows y q,
    λ y q.
        node_before-Agrees x y (a x (Has-root l x b r)) (a y (Has-right l x b r y q)) ∙ highs y q,
    IsBest-Agrees (Has (node l x b r)) b a best,
  )

  pub IsKeyed-Agrees : (y : ℕ) → s'.aging ≡ s.aging → Agrees s s' y → IsKeyed s y → IsKeyed s' y
  IsKeyed-Agrees y k a h = rw (procs, k, a.r, a.base, a.waited, a.ready_since) h
