-- ===== src/Engine/Census/Due.antt =====
-- What is due at an instant: every arrival and every end of I/O that is, and no other.
use native.Mathlib.Decide.{dec_lt}
use preemptive_and_non_preem.Base.{
  ℕ, zero, suc, ◌+◌, ◌<◌, ◌≤◌, ◌≡◌, refl, ap, ◌∙◌, Bool, true, false, ◌||◌, Bool-cases, ==→≡,
  Option, List, if_holds, arith, get_or, length, drop, inl, inr, ltb, ◌==◌,
}
use preemptive_and_non_preem.Base.Weight.{
  weigh, weigh-perm, weigh-cons, weigh-one, indicator, count, total, marked,
}
use preemptive_and_non_preem.Core.{Workload}
use preemptive_and_non_preem.Policy.{Float, Policy, arrival_of, pid_of}
use preemptive_and_non_preem.Policy.Contract.{Contract}
use preemptive_and_non_preem.Util.Heap.{heap_empty, at}
use preemptive_and_non_preem.Util.Heap.Order.{IsHeap, IsOrder, root_least}
use preemptive_and_non_preem.Util.Heap.Pop.{heap_pop_correct}
use preemptive_and_non_preem.Policies.Heaps.{lex-IsOrder}
use preemptive_and_non_preem.Engine.State.{Core, SimOptions, Engine, blocked_less}
use preemptive_and_non_preem.Engine.Step.{
  arrival_due, admit_one, admit_loop, admit_arrivals, wake_due, wake_one, wake_loop, wake_blocked,
}
use preemptive_and_non_preem.Engine.Census.{IsOrderOf, Balanced, census, is_done, seat}
use preemptive_and_non_preem.Engine.Census.Order.{IsByArrival}
use preemptive_and_non_preem.Engine.Census.Arrivals.{admit_one-Balanced, wake_one-Balanced}

no_more : (any : Bool) (k : ℕ) → any ≡ (any || ltb k k)
no_more any k = ground arith

some_more : (any b : Bool) (k m : ℕ) → k < m → b ≡ true → b ≡ (any || ltb k m)
some_more any b k m h e = ground (arith, h, e)

module _ {D S : Type 0} (f : Float D) {P : Policy D S} (w : Workload) (opt : SimOptions D)
    (order : List ℕ) (K : Contract P w.items) (o : IsOrderOf (length w.items) order)
    (held : List ℕ) where
  -- What neither of them touches.
  pub record Still (e e' : Engine D S) : Type 0 where
    pub now : e'.now ≡ e.now
    pub wake : e'.wake ≡ e.wake
    pub cores : e'.cores ≡ e.cores
    pub completion : e'.completion ≡ e.completion

  -- The arrival at the position `i` of the order.
  abbrev pub arrives : ℕ → ℕ
  arrives i = arrival_of w.items (get_or order i 0)

  -- The engine `e` after its due arrivals, with whether there was one or `any`: those at the next
  -- positions of the order up to now are ready, and those that follow are later.
  pub record Admitted (e : Engine D S) (any : Bool) (r : Engine D S × Bool) : Type 0 where
    pub balanced : Balanced K opt order held r.0
    pub still : Still e r.0
    pub blocked : r.0.blocked ≡ e.blocked
    pub onward : e.next ≤ r.0.next
    pub due : (i : ℕ) → e.next ≤ i → i < r.0.next → arrives i ≤ e.now
    pub later : (i : ℕ) → r.0.next ≤ i → i < length w.items → e.now < arrives i
    pub flag : r.1 ≡ (any || ltb e.next r.0.next)

  arrival_due-stop :
      (e : Engine D S)
      → IsByArrival w order
      → arrival_due f P w opt order e ≡ false
      → (i : ℕ) → e.next ≤ i
      → i < length w.items
      → e.now < arrives i
  unfolding arrival_due
  arrival_due-stop e by_arrival stop i lo hi =
      let first : e.now < arrives e.next = ground (arith, stop, lo, hi) in
      elim (dec_lt e.next i) [
        | yes before ↦ ground (arith, first, by_arrival e.next i before hi)
        | no same ↦
            let here : e.next ≡ i = omega (arith, same, lo) in omega (arith, first, ap arrives here)
      ]

  admit_loop-Admitted :
      (fuel : ℕ) (e : Engine D S) (any : Bool)
      → IsByArrival w order
      → Balanced K opt order held e
      → length w.items ≤ e.next + fuel
      → Admitted e any (admit_loop f P w opt order fuel e any)
  unfolding admit_loop admit_one arrival_due
  admit_loop-Admitted zero e any by_arrival b enough = record {
    balanced = b;
    still = record { now = refl; wake = refl; cores = refl; completion = refl };
    blocked = refl;
    onward = omega arith;
    due = λ i lo hi. absurd (omega (arith, lo, hi));
    later = λ i lo hi. absurd (omega (arith, lo, hi, enough));
    flag = no_more any e.next;
  }
  admit_loop-Admitted (suc fuel) e any by_arrival b enough =
      if_holds (Admitted e any) (arrival_due f P w opt order e)
        (λ due.
          let e1 = admit_one f P w opt order e in
          let rest =
            admit_loop-Admitted fuel e1 true by_arrival
              (admit_one-Balanced f w opt order K o held e b due) (omega (arith, enough)) in
          record {
            balanced = rest.balanced;
            still = record {
              now = rest.still.now;
              wake = rest.still.wake;
              cores = rest.still.cores;
              completion = rest.still.completion;
            };
            blocked = rest.blocked;
            onward = omega (arith, rest.onward);
            due = λ i lo hi. elim (dec_lt e.next i) [
              | yes before ↦ rest.due i (omega (arith, before)) hi
              | no same ↦
                  let here : e.next ≡ i = omega (arith, same, lo) in
                  let first : arrives e.next ≤ e.now = ground (arith, due) in
                  omega (arith, first, ap arrives here)
            ];
            later = rest.later;
            flag = some_more any _ e.next _ (omega (arith, rest.onward)) rest.flag;
          })
        (λ stop. record {
          balanced = b;
          still = record { now = refl; wake = refl; cores = refl; completion = refl };
          blocked = refl;
          onward = omega arith;
          due = λ i lo hi. absurd (omega (arith, lo, hi));
          later = arrival_due-stop e by_arrival stop;
          flag = no_more any e.next;
        })

  -- The processes that an engine has ready or blocked, or has yet to admit.
  abbrev pub waiting : (ℕ → ℕ) → Engine D S → ℕ
  waiting g e = weigh g (drop e.next order) + weigh g (K.ready e.state) + weigh g e.blocked

  same_waiting :
      (g : ℕ → ℕ) (e e' : Engine D S)
      → Balanced K opt order held e
      → Balanced K opt order held e'
      → Still e e'
      → waiting g e' ≡ waiting g e
  unfolding census
  same_waiting g e e' b b' still =
      let seats = ap (λ (cs : ℕ → Core). total (λ c. seat g (cs c)) opt.cores) still.cores in
      let done = ap (λ (c : ℕ → Option ℕ). weigh (marked (is_done c) g) order) still.completion in
      omega (arith, b.balance g, b'.balance g, seats, done)

  -- For a policy that keeps the contract, and an order of arrival that lists every process once, by
  -- arrival: `admit_arrivals` keeps the engine balanced, and moves to the policy exactly the processes
  -- at the next positions of the order that have arrived by now; all that follow arrive later. It says
  -- whether there was one, and leaves the blocked processes, the cores and the completions alone.
  pub admit_arrivals-Admitted :
      (e : Engine D S)
      → IsByArrival w order
      → Balanced K opt order held e
      → Admitted e false (admit_arrivals f P w opt order e)
        × ((g : ℕ → ℕ) → waiting g (admit_arrivals f P w opt order e).0 ≡ waiting g e)
  unfolding admit_arrivals
  admit_arrivals-Admitted e by_arrival b =
      let r = admit_loop-Admitted (length w.items) e false by_arrival b (omega arith) in
      (r, λ g. same_waiting g e _ b r.balanced r.still)

  -- The engine `e` after its due wake-ups, with whether there was one or `any`: those that were due by
  -- now are ready, the others are blocked as before.
  pub record Woken (e : Engine D S) (any : Bool) (r : Engine D S × Bool) : Type 0 where
    pub balanced : Balanced K opt order held r.0
    pub still : Still e r.0
    pub next : r.0.next ≡ e.next
    pub heap : IsHeap (blocked_less w opt r.0) r.0.blocked
    pub none_due : (i : ℕ) → i < length r.0.blocked → e.now < e.wake (at r.0.blocked i)
    pub later : (y : ℕ) → e.now < e.wake y → count y r.0.blocked ≡ count y e.blocked
    pub fewer : length r.0.blocked ≤ length e.blocked
    pub flag : r.1 ≡ (any || ltb (length r.0.blocked) (length e.blocked))

  blocked_less-IsOrder : (e : Engine D S) → IsOrder (blocked_less w opt e)
  unfolding blocked_less
  blocked_less-IsOrder e = lex-IsOrder e.wake (pid_of w.items)

  -- The first to wake is the root.
  root_wakes_first :
      (e : Engine D S) (i : ℕ)
      → IsHeap (blocked_less w opt e) e.blocked
      → i < length e.blocked
      → e.wake (at e.blocked 0) ≤ e.wake (at e.blocked i)
  unfolding blocked_less
  root_wakes_first e i heap h =
      let least = root_least (blocked_less w opt e) (blocked_less-IsOrder e) e.blocked i heap h in
      ground (arith, least)

  stays-Woken :
      (e : Engine D S) (any : Bool)
      → Balanced K opt order held e
      → IsHeap (blocked_less w opt e) e.blocked
      → ((i : ℕ) → i < length e.blocked → e.now < e.wake (at e.blocked i))
      → Woken e any (e, any)
  stays-Woken e any b heap none_due = record {
    balanced = b;
    still = record { now = refl; wake = refl; cores = refl; completion = refl };
    next = refl;
    heap = heap;
    none_due = none_due;
    later = λ y h. refl;
    fewer = omega arith;
    flag = no_more any (length e.blocked);
  }

  wake_due-stop :
      (e : Engine D S)
      → IsHeap (blocked_less w opt e) e.blocked
      → wake_due f P w opt order e ≡ false
      → (i : ℕ) → i < length e.blocked
      → e.now < e.wake (at e.blocked i)
  unfolding wake_due heap_empty
  wake_due-stop e heap stop i h = ground (arith, stop, h, root_wakes_first e i heap h)

  -- One wake-up, of a process that is due.
  record Waked (e e' : Engine D S) : Type 0 where
    still : Still e e'
    next : e'.next ≡ e.next
    heap : IsHeap (blocked_less w opt e') e'.blocked
    shorter : length e.blocked ≡ length e'.blocked + 1
    later : (y : ℕ) → e.now < e.wake y → count y e'.blocked ≡ count y e.blocked

  wake_one-Waked :
      (e : Engine D S)
      → IsHeap (blocked_less w opt e) e.blocked
      → wake_due f P w opt order e ≡ true
      → Waked e (wake_one f P w opt order e)
  unfolding wake_one wake_due heap_empty blocked_less
  wake_one-Waked e heap due =
      let less = blocked_less w opt e in
      let left : 0 < length e.blocked = ground (arith, due) in
      let (r, popped, right) =
        (heap_pop_correct less e.blocked (blocked_less-IsOrder e) heap).0 left in
      let first : e.wake r.0 ≤ e.wake (at e.blocked 0) = ground (arith, right.least 0 left) in
      let on_time : e.wake r.0 ≤ e.now = ground (arith, due, first) in
      rw (popped, wake_one)
        (record {
          still = record { now = refl; wake = refl; cores = refl; completion = refl };
          next = refl;
          heap = right.heap;
          shorter = omega (
            arith,
            weigh-perm (λ x. 1) right.perm,
            weigh-cons (λ x. 1) r.0 r.1,
            weigh-one r.1,
            weigh-one e.blocked,
          );
          later = λ y h.
              let other : indicator y r.0 ≡ 0 = elim (Bool-cases (r.0 == y)) [
                | inl same ↦
                    absurd (omega (arith, h, on_time, ap e.wake (==→≡ {a = r.0} {b = y} same)))
                | inr apart ↦ ground (arith, apart)
              ] in
              omega (
                arith,
                weigh-perm (indicator y) right.perm,
                weigh-cons (indicator y) r.0 r.1,
                other,
              );
        })

  after_one :
      (e e1 : Engine D S) (any : Bool) (r : Engine D S × Bool)
      → Waked e e1
      → Woken e1 true r
      → Woken e any r
  after_one e e1 any r one rest =
      let wakes : (x : ℕ) → e1.wake x ≡ e.wake x = λ x. ap (λ (t : ℕ → ℕ). t x) one.still.wake in
      record {
        balanced = rest.balanced;
        still = record {
          now = rest.still.now ∙ one.still.now;
          wake = rest.still.wake ∙ one.still.wake;
          cores = rest.still.cores ∙ one.still.cores;
          completion = rest.still.completion ∙ one.still.completion;
        };
        next = rest.next ∙ one.next;
        heap = rest.heap;
        none_due = λ i h. omega (arith, rest.none_due i h, one.still.now, wakes (at r.0.blocked i));
        later = λ y h. rest.later y (omega (arith, h, one.still.now, wakes y)) ∙ one.later y h;
        fewer = omega (arith, rest.fewer, one.shorter);
        flag = some_more any r.1 _ _ (omega (arith, rest.fewer, one.shorter)) rest.flag;
      }

  wake_loop-Woken :
      (fuel : ℕ) (e : Engine D S) (any : Bool)
      → Balanced K opt order held e
      → IsHeap (blocked_less w opt e) e.blocked
      → length e.blocked ≤ fuel
      → Woken e any (wake_loop f P w opt order fuel e any)
  unfolding wake_loop
  wake_loop-Woken zero e any b heap enough =
      stays-Woken e any b heap (λ i h. absurd (omega (arith, h, enough)))
  wake_loop-Woken (suc fuel) e any b heap enough =
      if_holds (Woken e any) (wake_due f P w opt order e)
        (λ due.
          let e1 = wake_one f P w opt order e in
          let one = wake_one-Waked e heap due in
          let rest =
            wake_loop-Woken fuel e1 true (wake_one-Balanced f w opt order K o held e b due) one.heap
              (omega (arith, one.shorter, enough)) in
          after_one e e1 any _ one rest)
        (λ stop. stays-Woken e any b heap (wake_due-stop e heap stop))

  -- For a policy that keeps the contract, an order of arrival that lists every process once, and a heap
  -- of blocked processes in order: `wake_blocked` keeps the engine balanced, and moves to the policy
  -- exactly the blocked processes whose I/O is over by now; the others stay blocked, in order. It says
  -- whether there was one, and leaves the arrivals, the cores and the completions alone.
  pub wake_blocked-Woken :
      (e : Engine D S)
      → IsHeap (blocked_less w opt e) e.blocked
      → Balanced K opt order held e
      → Woken e false (wake_blocked f P w opt order e)
        × ((g : ℕ → ℕ) → waiting g (wake_blocked f P w opt order e).0 ≡ waiting g e)
  unfolding wake_blocked
  wake_blocked-Woken e heap b =
      let r = wake_loop-Woken (length e.blocked) e false b heap (omega arith) in
      (r, λ g. same_waiting g e _ b r.balanced r.still)
