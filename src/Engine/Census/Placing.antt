-- ===== src/Engine/Census/Placing.antt =====
-- Every pick is placed: there is a free core for each, and placing keeps the census.
use preemptive_and_non_preem.Base.{
  ℕ, zero, suc, ◌+◌, ◌-◌, ◌<◌, ◌≤◌, ◌≡◌, refl, sym, ap, Bool, true, false, not, ◌||◌, List, [], ◌∷◌,
  if_holds, if◌then◌else◌, ltb, update, arith, length, inl, inr, Option-cases, ◌++◌,
}
use preemptive_and_non_preem.Base.Weight.{weigh, weigh-append, weigh-perm, weigh-cons, weigh-nil}
use preemptive_and_non_preem.Core.{Process, Workload}
use preemptive_and_non_preem.Policy.{Float, Policy, Slice}
use preemptive_and_non_preem.Policy.Contract.{Contract}
use preemptive_and_non_preem.Engine.State.{Core, SimOptions, Engine, is_free, view_of}
use preemptive_and_non_preem.Engine.Step.{dispatch_one}
use preemptive_and_non_preem.Engine.Dispatch.{
  count_free, find_core, collect, was_here, place_home, place_rest, dispatch,
}
use preemptive_and_non_preem.Engine.Census.Openings.{
  is_open, openings, find_core-Found, find_core-none, openings-close,
}
use preemptive_and_non_preem.Engine.Census.{census, Balanced}
use preemptive_and_non_preem.Engine.Census.Starts.{dispatch_one-Balanced, dispatch_one-Seats}

-- The processes of the picks.
unfoldable pub procs_of : List Slice → List ℕ
procs_of [] = []
procs_of (s ∷ picks) = s.proc ∷ procs_of picks

-- A pick moves to the processes behind the picks.
shift : (p : ℕ) (xs ys : List ℕ) (g : ℕ → ℕ) → weigh g (p ∷ (xs ++ ys)) ≡ weigh g (xs ++ (p ∷ ys))
shift p xs ys g = omega (
  arith,
  weigh-cons g p (xs ++ ys),
  weigh-append g xs ys,
  weigh-append g xs (p ∷ ys),
  weigh-cons g p ys,
)

-- At the start of a dispatch, the openings are the free cores.
openings-top :
    (test : ℕ → Bool) (left c : ℕ)
    → openings test (suc left) c ≡ openings test left c + (if test (c + left) then 1 else 0)
unfolding openings
openings-top test zero c =
    let here : c + 0 ≡ c = omega arith in
    omega (arith, ap {B = ℕ} (λ x. if test x then 1 else 0) here)
openings-top test (suc left) c =
    let here : c + suc left ≡ c + 1 + left = omega arith in
    omega (arith, openings-top test left (c + 1), ap {B = ℕ} (λ x. if test x then 1 else 0) here)

count_free-openings :
    {D S : Type 0} (e : Engine D S) (k : ℕ) → count_free e k ≡ openings (is_open e (λ c. false)) k 0
unfolding count_free openings
count_free-openings e zero = refl
count_free-openings e (suc k) =
    ground (arith, count_free-openings e k, openings-top (is_open e (λ c. false)) k 0)

module _ {D S : Type 0} (f : Float D) {P : Policy D S} (w : Workload) (opt : SimOptions D)
    (order : List ℕ) {procs : List Process} (K : Contract P procs) where
  -- Only the weights of the held processes matter.
  Balanced-held :
      {held held' : List ℕ} {e : Engine D S}
      → ((g : ℕ → ℕ) → weigh g held ≡ weigh g held')
      → Balanced K opt order held e
      → Balanced K opt order held' e
  unfolding census
  Balanced-held h b = record {
    balance = λ g. omega (arith, h g, b.balance g);
    good = b.good;
    admitted = b.admitted;
    counted = b.counted;
  }

  -- Processes move between the ready set and the picks.
  ready-Balanced :
      (held held' : List ℕ) (e : Engine D S) (state : S)
      → K.IsGood state
      → ((g : ℕ → ℕ)
          → weigh g (K.ready state) + weigh g held' ≡ weigh g (K.ready e.state) + weigh g held)
      → Balanced K opt order held e
      → Balanced K opt order held' (record e { state = state })
  unfolding census
  ready-Balanced held held' e state good moved b = record {
    balance = λ g. omega (arith, moved g, b.balance g);
    good = good;
    admitted = b.admitted;
    counted = b.counted;
  }

  -- Filling an open core keeps the census and takes one opening.
  open-after :
      (e : Engine D S) (used : ℕ → Bool) (s : Slice) (d left c : ℕ)
      → is_open e used d ≡ true
      → c ≤ d
      → d < c + left
      → openings (is_open e used) left c
        ≡ openings (is_open (dispatch_one f P w opt order e d s) (update used d true)) left c + 1
  open-after e used s d left c vacant lo hi =
      let seats = dispatch_one-Seats f w opt order K e d s in
      openings-close (is_open e used)
        (is_open (dispatch_one f P w opt order e d s) (update used d true)) d vacant (ground arith)
        (λ x h. rw (h, seats.others x h) refl) left c lo hi

  -- The second loop places every pick that is left.
  place_rest-Balanced :
      (picks : List Slice) (used : ℕ → Bool) (c : ℕ) (e : Engine D S)
      → length picks ≤ openings (is_open e used) (opt.cores - c) c
      → Balanced K opt order (procs_of picks) e
      → Balanced K opt order [] (place_rest f P w opt order picks used c e)
  unfolding place_rest procs_of
  place_rest-Balanced [] used c e room b = b
  place_rest-Balanced (s ∷ picks) used c e room b =
      let test = is_open e used in
      elim (Option-cases (find_core test (opt.cores - c) c)) [
        | inl nowhere ↦ absurd (omega (arith, find_core-none test (opt.cores - c) c nowhere))
        | inr (d, h) ↦
            let there = find_core-Found test (opt.cores - c) c d h in
            let free : is_free (e.cores d) ≡ true = ground (arith, there.passes) in
            let low : d < opt.cores = omega (arith, there.above, there.below) in
            let b' = dispatch_one-Balanced f w opt order K (procs_of picks) e d s low free b in
            let k : opt.cores - c + c - d ≡ opt.cores - d =
              omega (arith, there.above, there.below) in
            let fewer =
              open-after e used s d (opt.cores - d) d there.passes (omega arith)
                (omega (arith, low)) in
            simp (h, place_rest)
              (place_rest-Balanced picks (update used d true) d (dispatch_one f P w opt order e d s)
                (omega (arith, room, there.first, ap (λ x. openings test x d) k, fewer)) b')
      ]

  place_all-Balanced :
      (picks : List Slice) (used : ℕ → Bool) (e : Engine D S)
      → length picks ≤ openings (is_open e used) opt.cores 0
      → Balanced K opt order (procs_of picks ++ []) e
      → Balanced K opt order [] (place_rest f P w opt order picks used 0 e)
  place_all-Balanced picks used e room b =
      let k : opt.cores - 0 ≡ opt.cores = omega arith in
      place_rest-Balanced picks used 0 e
        (omega (arith, room, ap (λ x. openings (is_open e used) x 0) k))
        (Balanced-held (λ g. omega (arith, weigh-append g (procs_of picks) [], weigh-nil g)) b)

  -- The first loop keeps the census, and leaves an opening for every pick that it does not place.
  place_home-Balanced :
      (picks : List Slice) (extra : List ℕ) (used : ℕ → Bool) (e : Engine D S)
      → length picks + length extra ≤ openings (is_open e used) opt.cores 0
      → Balanced K opt order (procs_of picks ++ extra) e
      → let r = place_home f P w opt order picks used e in
        Balanced K opt order (procs_of r.0 ++ extra) r.2
        × (length r.0 + length extra ≤ openings (is_open r.2 r.1) opt.cores 0)
  unfolding place_home procs_of
  place_home-Balanced [] extra used e room b = (b, room)
  place_home-Balanced (s ∷ picks) extra used e room b =
      elim (Option-cases (find_core (was_here f P w opt order e used s.proc) opt.cores 0)) [
        | inl nowhere ↦
            let (b', room') =
              place_home-Balanced picks (s.proc ∷ extra) used e (omega arith)
                (Balanced-held (shift s.proc (procs_of picks) extra) b) in
            simp (nowhere, place_home)
              (
                Balanced-held
                    (λ g.
                      sym (
                        shift s.proc (procs_of (place_home f P w opt order picks used e).0) extra
                          g))
                    b',
                omega (arith, room'),
              )
        | inr (d, h) ↦
            let there = find_core-Found (was_here f P w opt order e used s.proc) opt.cores 0 d h in
            let vacant : is_open e used d ≡ true = ground (arith, there.passes) in
            let free : is_free (e.cores d) ≡ true = ground (arith, vacant) in
            let low : d < opt.cores = omega (arith, there.below) in
            let b' =
              dispatch_one-Balanced f w opt order K (procs_of picks ++ extra) e d s low free b in
            let fewer =
              open-after e used s d opt.cores 0 vacant (omega arith) (omega (arith, low)) in
            simp (h, place_home)
              (place_home-Balanced picks extra (update used d true)
                (dispatch_one f P w opt order e d s) (omega (arith, room, fewer)) b')
      ]

  -- The picks leave the ready set, at most `k` of them, and no core changes.
  collect-Balanced :
      (k : ℕ) (held : List ℕ) (e : Engine D S)
      → Balanced K opt order held e
      → let r = collect f P w opt order k e in
        Balanced K opt order (procs_of r.0 ++ held) r.1 × (length r.0 ≤ k) × (r.1.cores ≡ e.cores)
  unfolding collect procs_of
  collect-Balanced zero held e b = (b, omega arith, refl)
  collect-Balanced (suc k) held e b =
      let (good, answers) = K.picks (view_of w opt e) e.state b.good in
      elim (Option-cases (P.next_slice (view_of w opt e) e.state).0) [
        | inl no_more ↦
            let b' =
              ready-Balanced held held e _ good
                (λ g. omega (arith, weigh-perm g (answers.declines no_more))) b in
            simp (no_more, collect) (b', omega arith, refl)
        | inr (s, picked) ↦
            let e' : Engine D S = record e { state = (P.next_slice (view_of w opt e) e.state).1 } in
            let b' : Balanced K opt order (s.proc ∷ held) e' =
              ready-Balanced held (s.proc ∷ held) e _ good
                (λ g. omega (
                  arith,
                  weigh-perm g (answers.takes s picked),
                  weigh-cons g s.proc held,
                  weigh-cons g s.proc (K.ready e'.state),
                ))
                b in
            let (b1, size, same) = collect-Balanced k (s.proc ∷ held) e' b' in
            let more = (collect f P w opt order k e').0 in
            simp (picked, collect)
              (
                Balanced-held (λ g. sym (shift s.proc (procs_of more) held g)) b1,
                omega (arith, size),
                same,
              )
      ]

  -- For a policy that keeps the contract, `dispatch` keeps the engine balanced with no process
  -- held: every process that the policy gives up is placed on a free core below `cores`, and none
  -- is lost or doubled.
  pub dispatch-Balanced :
      (e : Engine D S)
      → Balanced K opt order [] e
      → Balanced K opt order [] (dispatch f P w opt order e)
  unfolding dispatch
  dispatch-Balanced e b =
      let k = count_free e opt.cores in
      let (b1, size, same) = collect-Balanced k [] e b in
      let picks = (collect f P w opt order k e).0 in
      let e1 = (collect f P w opt order k e).1 in
      let open_same : openings (is_open e1 (λ c. false)) opt.cores 0
          ≡ openings (is_open e (λ c. false)) opt.cores 0 =
        ap (λ (a : ℕ → Core). openings (λ c. not (false || not (is_free (a c)))) opt.cores 0)
          same in
      let room : length picks ≤ openings (is_open e1 (λ c. false)) opt.cores 0 =
        omega (arith, size, open_same, count_free-openings e opt.cores) in
      if_holds (Balanced K opt order []) (ltb 1 opt.cores)
        (λ _.
          let home = place_home-Balanced picks [] (λ c. false) e1 (omega (arith, room)) b1 in
          let r = place_home f P w opt order picks (λ c. false) e1 in
          place_all-Balanced r.0 r.1 r.2 (omega (arith, home.1)) home.0)
        (λ _. place_all-Balanced picks (λ c. false) e1 room b1)
