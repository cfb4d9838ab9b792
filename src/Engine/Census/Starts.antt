-- ===== src/Engine/Census/Starts.antt =====
-- Starting a slice or a switch keeps the census: a held process sits down on the core.
use preemptive_and_non_preem.Base.{
  ℕ, ◌<◌, ◌≡◌, refl, sym, ap, true, false, ◌&&◌, none, some, List, ◌∷◌, if_holds, if◌then◌else◌,
  ltb, update, arith, ◌∙◌, inl, inr, Option-cases, ◌==◌,
}
use preemptive_and_non_preem.Base.Int.{pos_part}
use preemptive_and_non_preem.Base.Weight.{weigh}
use preemptive_and_non_preem.Core.{Process, Workload}
use preemptive_and_non_preem.Policy.{Float, Policy, Slice}
use preemptive_and_non_preem.Policy.Contract.{Contract}
use preemptive_and_non_preem.Engine.State.{
  Core, SimOptions, Segment, Engine, idle, cs, append, add_time, is_free,
}
use preemptive_and_non_preem.Engine.Step.{
  start_run, begin_run, switching, occupy, begin_switch, dispatch_one,
}
use preemptive_and_non_preem.Engine.Census.{seat, census, Balanced}
use preemptive_and_non_preem.Engine.Census.Moves.{census-cores, census-held}
use preemptive_and_non_preem.Engine.Census.Keeps.{
  SamePlaces, census-SamePlaces, Balanced-SamePlaces, Balanced-core, append-SamePlaces,
  add_time-SamePlaces,
}

-- Only core `c` is touched, and it has process `p` afterwards.
pub record Seats {D S : Type 0} (c p : ℕ) (e e' : Engine D S) : Type 0 where
  pub here : (e'.cores c).proc ≡ some p
  pub others : (d : ℕ) → (c == d) ≡ false → e'.cores d ≡ e.cores d

pub Seats-trans :
    {D S : Type 0} {c p q : ℕ} {e1 e2 e3 : Engine D S}
    → Seats c p e1 e2
    → Seats c q e2 e3
    → Seats c q e1 e3
Seats-trans s t = record { here = t.here; others = λ d h. t.others d h ∙ s.others d h }

seat_free : (g : ℕ → ℕ) (core : Core) → is_free core ≡ true → seat g core ≡ 0
seat_free g core h = ground arith

module _ {D S : Type 0} (f : Float D) {P : Policy D S} (w : Workload) (opt : SimOptions D)
    (order : List ℕ) {procs : List Process} (K : Contract P procs) where
  -- Rewriting one core, in an engine whose cores are those of `e`.
  Seats-update :
      (c p : ℕ) (e e1 : Engine D S) (core : Core)
      → e1.cores ≡ e.cores
      → core.proc ≡ some p
      → Seats c p e (record e1 { cores = update e1.cores c core })
  Seats-update c p e e1 core same here = record {
    here = ground arith;
    others = λ d h. rw (h, same) refl;
  }

  start_run-Balanced :
      (held : List ℕ) (e : Engine D S) (c p : ℕ)
      → c < opt.cores
      → Balanced K opt order held e
      → Balanced K opt order held (start_run f P w opt order e c p)
  unfolding start_run
  start_run-Balanced held e c p h b =
      let core = e.cores c in
      let started = update e.start p (elim (e.start p) [ none ↦ some e.now | some t ↦ some t ]) in
      let len = if ltb core.length (e.remaining p) then core.length else e.remaining p in
      let e0 : Engine D S = record e { start = started } in
      let s = add_time-SamePlaces K opt order e0 e0.now len in
      let s' : SamePlaces K opt order e (add_time e0 e0.now len).1 = record {
        state = s.state;
        next = s.next;
        blocked = s.blocked;
        cores = s.cores;
        completion = s.completion;
        completed = s.completed;
      } in
      Balanced-core K opt order held (add_time e0 e0.now len).1 c _ h
        (ap (λ (a : ℕ → Core). (a c).proc) (sym s'.cores))
        (Balanced-SamePlaces K opt order held s' b)

  start_run-Seats :
      (e : Engine D S) (c p : ℕ)
      → (e.cores c).proc ≡ some p
      → Seats c p e (start_run f P w opt order e c p)
  unfolding start_run
  start_run-Seats e c p here =
      Seats-update c p e _ _ (add_time-SamePlaces K opt order _ _ _).cores here

  pub begin_run-Balanced :
      (held : List ℕ) (e : Engine D S) (c : ℕ)
      → c < opt.cores
      → Balanced K opt order held e
      → Balanced K opt order held (begin_run f P w opt order e c)
  unfolding begin_run
  begin_run-Balanced held e c h b = elim (Option-cases (e.cores c).proc) [
    | inl none_here ↦ simp (none_here, begin_run) b
    | inr (p, here) ↦ simp (here, begin_run) (start_run-Balanced held e c p h b)
  ]

  pub begin_run-Seats :
      (e : Engine D S) (c p : ℕ)
      → (e.cores c).proc ≡ some p
      → Seats c p e (begin_run f P w opt order e c)
  unfolding begin_run
  begin_run-Seats e c p here = simp (here, begin_run) (start_run-Seats e c p here)

  -- A held process sits down on a free core.
  occupy-Balanced :
      (held : List ℕ) (e : Engine D S) (c : ℕ) (s : Slice)
      → c < opt.cores
      → is_free (e.cores c) ≡ true
      → Balanced K opt order (s.proc ∷ held) e
      → Balanced K opt order held (occupy f P w opt order e c s)
  unfolding occupy census weigh
  occupy-Balanced held e c s h free b =
      let seg : Segment = record {
        start = (e.cores c).free_since;
        end = e.now;
        proc = none;
        kind = idle;
      } in
      let e1 : Engine D S = append w opt e c seg in
      let same = append-SamePlaces K opt order w e c seg in
      let taken : Core = record (e.cores c) {
        proc = some s.proc;
        length = s.length;
        deadline = s.deadline;
        recheck = false;
        context = some s.proc;
      } in
      record {
        balance = λ g.
            let empty : seat g (e1.cores c) ≡ 0 = rw same.cores (seat_free g (e.cores c) free) in
            omega (
              arith,
              census-cores K opt order g held e1 c taken h,
              empty,
              census-SamePlaces K opt order g held same,
              census-held K opt order g s.proc held e,
              b.balance g,
            );
        good = rw same.state b.good;
        admitted = rw same.next b.admitted;
        counted = rw (same.completed, same.completion) b.counted;
      }

  occupy-Seats :
      (e : Engine D S) (c : ℕ) (s : Slice) → Seats c s.proc e (occupy f P w opt order e c s)
  unfolding occupy
  occupy-Seats e c s =
      Seats-update c s.proc e _ _ (append-SamePlaces K opt order w e c _).cores refl

  begin_switch-Balanced :
      (held : List ℕ) (e : Engine D S) (c p : ℕ)
      → c < opt.cores
      → Balanced K opt order held e
      → Balanced K opt order held (begin_switch f P w opt order e c p)
  unfolding begin_switch
  begin_switch-Balanced held e c p h b =
      let s = add_time-SamePlaces K opt order e e.now (pos_part opt.cs_cost) in
      let e1 : Engine D S = (add_time e e.now (pos_part opt.cs_cost)).1 in
      let until = (add_time e e.now (pos_part opt.cs_cost)).0 in
      let core : Core = record (e.cores c) { in_cs = true; busy_until = until } in
      let e2 : Engine D S = record e1 { cores = update e1.cores c core } in
      let b2 =
        Balanced-core K opt order held e1 c core h (ap (λ (a : ℕ → Core). (a c).proc) (sym s.cores))
          (Balanced-SamePlaces K opt order held s b) in
      let t = append-SamePlaces K opt order w e2 c _ in
      Balanced-SamePlaces K opt order held
        (record {
          state = t.state;
          next = t.next;
          blocked = t.blocked;
          cores = t.cores;
          completion = t.completion;
          completed = t.completed;
        })
        b2

  begin_switch-Seats :
      (e : Engine D S) (c p : ℕ)
      → (e.cores c).proc ≡ some p
      → Seats c p e (begin_switch f P w opt order e c p)
  unfolding begin_switch
  begin_switch-Seats e c p here =
      let s = add_time-SamePlaces K opt order e e.now (pos_part opt.cs_cost) in
      let e1 : Engine D S = (add_time e e.now (pos_part opt.cs_cost)).1 in
      let until = (add_time e e.now (pos_part opt.cs_cost)).0 in
      let core : Core = record (e.cores c) { in_cs = true; busy_until = until } in
      let e2 : Engine D S = record e1 { cores = update e1.cores c core } in
      let seated : Seats c p e e2 = Seats-update c p e e1 core s.cores here in
      let seg : Segment = record { start = e2.now; end = until; proc = some p; kind = cs } in
      let t = append-SamePlaces K opt order w e2 c seg in
      record { here = rw t.cores seated.here; others = λ d h. rw t.cores (seated.others d h) }

  -- Dispatching a held process on a free core keeps the census, whether or not it has to switch.
  pub dispatch_one-Balanced :
      (held : List ℕ) (e : Engine D S) (c : ℕ) (s : Slice)
      → c < opt.cores
      → is_free (e.cores c) ≡ true
      → Balanced K opt order (s.proc ∷ held) e
      → Balanced K opt order held (dispatch_one f P w opt order e c s)
  unfolding dispatch_one
  dispatch_one-Balanced held e c s h free b =
      let b' = occupy-Balanced held e c s h free b in
      let e' = occupy f P w opt order e c s in
      if_holds (Balanced K opt order held)
        (switching (e.cores c) s.proc && ltb 0 (pos_part opt.cs_cost))
        (λ _. begin_switch-Balanced held e' c s.proc h b') (λ _. begin_run-Balanced held e' c h b')

  pub dispatch_one-Seats :
      (e : Engine D S) (c : ℕ) (s : Slice) → Seats c s.proc e (dispatch_one f P w opt order e c s)
  unfolding dispatch_one
  dispatch_one-Seats e c s =
      let seated = occupy-Seats e c s in
      let e' = occupy f P w opt order e c s in
      if_holds (Seats c s.proc e) (switching (e.cores c) s.proc && ltb 0 (pos_part opt.cs_cost))
        (λ _. Seats-trans seated (begin_switch-Seats e' c s.proc seated.here))
        (λ _. Seats-trans seated (begin_run-Seats e' c s.proc seated.here))
