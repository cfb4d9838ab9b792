-- ===== src/Policies/Prio/Hooks.antt =====
-- src/policies/priority.c: a process that joins the queue gets its keys, and one that is chosen leaves
-- it. Both keep the invariant.
use preemptive_and_non_preem.Base.{
  ℕ, ap, ◌⊎◌, ◌+◌, ◌-◌, ◌<◌, ◌≡◌, ◌≢◌, refl, sym, ◌∙◌, inl, inr, true, false, List, length,
  if_holds, arith, update, ltb, ◌==◌, Bool-cases, ==→≡,
}
use preemptive_and_non_preem.Base.Weight.{indicator}
use preemptive_and_non_preem.Core.{Process}
use preemptive_and_non_preem.Policy.{HasDistinctPids, View}
use preemptive_and_non_preem.Policy.Contract.{Room}
use preemptive_and_non_preem.Policies.Prio.{set_keys, enqueue, take_slice}
use preemptive_and_non_preem.Policies.Prio.Tree.{Treap, Prio, erase, inorder}
use preemptive_and_non_preem.Policies.Prio.Keys.{node_before_total}
use preemptive_and_non_preem.Policies.Prio.Shape.{Has, copies, indicator-eq}
use preemptive_and_non_preem.Policies.Prio.Split.{Tells, insert-IsTreap}
use preemptive_and_non_preem.Policies.Prio.Erase.{erase-IsTreap}
use preemptive_and_non_preem.Policies.Prio.Sound.{
  IsKeyed, IsSound, Agrees, IsTreap-Agrees, IsKeyed-Agrees,
}

-- What `set_keys` leaves as it was, and what it gives the process.
record Rekeyed (s : Prio) (p : ℕ) (s' : Prio) : Type 0 where
  procs : s'.procs ≡ s.procs
  aging : s'.aging ≡ s.aging
  root : s'.root ≡ s.root
  others : (y : ℕ) → (p == y) ≡ false → Agrees s s' y
  here : IsKeyed s' p

set_keys-Rekeyed : (s : Prio) (now p : ℕ) → Rekeyed s p (set_keys s now p)
unfolding set_keys
set_keys-Rekeyed s now p =
    let here : (p == p) ≡ true = ground arith in
    if_holds (Rekeyed s p) (ltb 0 s.aging)
      (λ ages. record {
        procs = refl;
        aging = refl;
        root = refl;
        others = λ y apart. record {
          r = rw apart refl;
          base = rw apart refl;
          waited = refl;
          ready_since = rw apart refl;
        };
        here = rw ages (rw here (refl, refl));
      })
      (λ ageless. record {
        procs = refl;
        aging = refl;
        root = refl;
        others = λ y apart. record {
          r = rw apart refl;
          base = rw apart refl;
          waited = refl;
          ready_since = rw apart refl;
        };
        here = rw ageless (rw here (refl, refl));
      })

-- A process of a tree with one more is that one, or was there.
new_or_old :
    (t t' : Treap) (p : ℕ)
    → ((y : ℕ) → copies y t' ≡ copies y t + indicator y p)
    → (y : ℕ) → Has t' y
    → (y ≡ p) ⊎ Has t y
new_or_old t t' p all y q = elim (Bool-cases (p == y)) [
  | inl same ↦ inl (omega (arith, ==→≡ {a = p} {b = y} same))
  | inr apart ↦ inr (ground (arith, all y, q, apart))
]

unqueued : (t : Treap) (p y : ℕ) → copies p t ≡ 0 → Has t y → (p == y) ≡ false
unqueued t p y absent q =
    let unequal : p ≢ y = λ e. omega (arith, ap (λ z. copies z t) e, absent, q) in
    ground (arith, unequal)

differ : (x y : ℕ) → (x == y) ≡ false → x ≢ y
differ x y h = λ e. ground (arith, h, e)

module _ {procs : List Process} (pids : HasDistinctPids procs) where
  -- The order of a sound state tells a process with a room from those in the queue.
  told_apart :
      (s s' : Prio) (p : ℕ)
      → IsSound procs s
      → s'.procs ≡ s.procs
      → p < length procs
      → ((y : ℕ) → Has s.root y → (p == y) ≡ false)
      → Tells s' p s.root
  told_apart s s' p sound same inside apart y q after =
      node_before_total s' y p
        (rw (same, sound.view)
          (λ e. pids p y inside (sound.inside y q) (differ p y (apart y q)) (sym e)))
        after

  -- For processes with distinct pids, a sound state and a process that may join the queue: `enqueue`
  -- gives a sound state whose queue has that process more.
  pub enqueue-IsSound :
      {D : Type 0} (v : View D) (s : Prio) (p : ℕ)
      → IsSound procs s
      → Room (length procs) (inorder s.root) p
      → IsSound procs (enqueue v s p)
        × ((y : ℕ) → copies y (enqueue v s p).root ≡ copies y s.root + indicator y p)
  unfolding enqueue
  enqueue-IsSound v s p sound room =
      let s' = set_keys s v.now p in
      let k = set_keys-Rekeyed s v.now p in
      let apart : (y : ℕ) → Has s.root y → (p == y) ≡ false =
        λ y q. unqueued s.root p y room.absent q in
      let agrees : (y : ℕ) → Has s.root y → Agrees s s' y = λ y q. k.others y (apart y q) in
      let (tree, all) =
        insert-IsTreap s' p s.root (IsTreap-Agrees s s' k.procs s.root agrees sound.tree)
          (told_apart s s' p sound k.procs room.inside apart) in
      rw k.root (
        record {
          view = k.procs ∙ sound.view;
          tree = tree;
          inside = λ y q. elim (new_or_old s.root _ p all y q) [
            | inl e ↦ rw e room.inside
            | inr old ↦ sound.inside y old
          ];
          once = λ y. elim (Bool-cases (p == y)) [
            | inl e ↦
                let same : p ≡ y = ==→≡ {a = p} {b = y} e in
                omega (
                  arith,
                  all y,
                  ap (λ z. copies z s.root) same,
                  room.absent,
                  indicator-eq p y (sym same),
                )
            | inr e ↦
                let no_more : indicator y p ≡ 0 = rw e refl in
                omega (arith, all y, sound.once y, no_more)
          ];
          keyed = λ y q. elim (new_or_old s.root _ p all y q) [
            | inl e ↦ rw e k.here
            | inr old ↦ IsKeyed-Agrees s s' k.procs y k.aging (agrees y old) (sound.keyed y old)
          ];
        },
        all,
      )

  -- A process that is not queued gets another waiting time.
  pub waited-IsSound :
      (s : Prio) (p k : ℕ)
      → IsSound procs s
      → copies p s.root ≡ 0
      → IsSound procs (record s { waited = update s.waited p k })
  waited-IsSound s p k sound absent =
      let agrees : (y : ℕ) → Has s.root y → Agrees s (record s { waited = update s.waited p k }) y =
        λ y q.
          let apart : (p == y) ≡ false = unqueued s.root p y absent q in
          record { r = refl; base = refl; waited = rw apart refl; ready_since = refl } in
      record {
        view = sound.view;
        tree =
            IsTreap-Agrees s (record s { waited = update s.waited p k }) refl s.root agrees
              sound.tree;
        inside = sound.inside;
        once = sound.once;
        keyed = λ y q.
            IsKeyed-Agrees s (record s { waited = update s.waited p k }) refl y refl (agrees y q)
              (sound.keyed y q);
      }

  -- For a sound state and a process in the queue: `take_slice` gives a sound state whose queue lacks
  -- that process.
  pub take_slice-IsSound :
      {D : Type 0} (v : View D) (s : Prio) (p : ℕ)
      → IsSound procs s
      → Has s.root p
      → IsSound procs (take_slice v s p).1
        × ((y : ℕ) → copies y (take_slice v s p).1.root + indicator y p ≡ copies y s.root)
  unfolding take_slice
  take_slice-IsSound v s p sound queued =
      let (tree, all) = erase-IsTreap s s.root p sound.tree queued in
      let s' : Prio = record s { root = erase s s.root p } in
      let old : (y : ℕ) → Has s'.root y → Has s.root y = λ y q. omega (arith, all y, q) in
      let same : (y : ℕ) → Agrees s s' y =
        λ y. record { r = refl; base = refl; waited = refl; ready_since = refl } in
      let sound' : IsSound procs s' = record {
        view = sound.view;
        tree = IsTreap-Agrees s s' refl s'.root (λ y q. same y) tree;
        inside = λ y q. sound.inside y (old y q);
        once = λ y. omega (arith, all y, sound.once y);
        keyed = λ y q. sound.keyed y (old y q);
      } in
      (
        waited-IsSound s' p (s.waited p + (v.now - s.ready_since p)) sound'
            (omega (arith, all p, sound.once p, indicator-eq p p refl)),
        all,
      )
