-- ===== src/Engine/Timeline.antt =====
-- src/engine/engine.c: the timelines that `append` builds, which are newest first here.
use mathlib.Core.Path.{subst}
use preemptive_and_non_preem.Base.{
  ℕ, ◌+◌, ◌-◌, ◌<◌, ◌≤◌, ◌≡◌, refl, sym, ◌∙◌, true, false, not, ◌&&◌, ◌||◌, Option, List, [], ◌∷◌,
  if_holds, if◌then◌else◌, leb, ◌==◌, update, arith,
}
use preemptive_and_non_preem.Core.{Workload}
use preemptive_and_non_preem.Engine.State.{
  Segment, SegmentKind, SimOptions, Engine, same_kind, same_proc, extends, stretch, is_fine, append,
}

-- The segments follow each other without a gap from `a` to `b`, none is empty, and no two neighbours
-- could have been one.
abbrev pub Tiles : ℕ → ℕ → List Segment → Type 0
Tiles a b [] = a ≡ b
Tiles a b (s ∷ older) =
    (s.end ≡ b) × (s.start < s.end) × (extends older s ≡ false) × Tiles a s.start older

-- The time that a timeline gives to one kind of segment of one process.
unfoldable pub time_in : SegmentKind → Option ℕ → List Segment → ℕ
time_in k p [] = 0
time_in k p (s ∷ older) =
    (if same_kind s.kind k && same_proc s.proc p then s.end - s.start else 0) + time_in k p older

-- The end of a segment does not matter for what it extends.
extends-end :
    (tl : List Segment) (s : Segment) (t : ℕ) → extends tl (record s { end = t }) ≡ extends tl s
extends-end [] s t = refl
extends-end (last ∷ older) s t = refl

stretch-Tiles :
    (a : ℕ) (tl : List Segment) (s : Segment)
    → Tiles a s.start tl
    → s.start < s.end
    → extends tl s ≡ true
    → Tiles a s.end (stretch tl s.end)
stretch-Tiles a [] s t h e = cc
stretch-Tiles a (last ∷ older) s t h e =
    (refl, omega (arith, t.0, t.1), extends-end older last s.end ∙ t.2, t.3)

same_kind_trans : (j k l : SegmentKind) → same_kind j k ≡ true → same_kind j l ≡ same_kind k l
same_kind_trans j k l h = ground arith

same_proc_trans : (p q r : Option ℕ) → same_proc p q ≡ true → same_proc p r ≡ same_proc q r
same_proc_trans p q r h = ground arith

stretch-time :
    (k : SegmentKind) (p : Option ℕ) (a : ℕ) (tl : List Segment) (s : Segment)
    → Tiles a s.start tl
    → s.start < s.end
    → extends tl s ≡ true
    → time_in k p (stretch tl s.end) ≡ time_in k p (s ∷ tl)
unfolding time_in
stretch-time k p a [] s t h e = cc
stretch-time k p a (last ∷ older) s t h e =
    let kinds : same_kind last.kind s.kind ≡ true = ground arith in
    let procs : same_proc last.proc s.proc ≡ true = ground arith in
    rw (same_kind_trans last.kind s.kind k kinds, same_proc_trans last.proc s.proc p procs)
      (ground (arith, t.0, t.1, h))

update-here : {A : Type 0} (f : ℕ → A) (i : ℕ) (v : A) → update f i v i ≡ v
update-here f i v = ground arith

module _ {D S : Type 0} (w : Workload) (opt : SimOptions D) (c : ℕ) where
  -- What appending `s` to core `c` makes of the engine, for a timeline that starts at `a`.
  pub record Appended (a : ℕ) (s : Segment) (e e' : Engine D S) : Type 0 where
    pub tiles : Tiles a s.end (e'.timelines c)
    pub times :
        (k : SegmentKind) (p : Option ℕ)
        → time_in k p (e'.timelines c) ≡ time_in k p (s ∷ e.timelines c)
    pub others : (d : ℕ) → (c == d) ≡ false → e'.timelines d ≡ e.timelines d
    pub bounded : e'.segments ≤ opt.max_segments

  -- Replacing the timeline of core `c`.
  replaced :
      (a : ℕ) (s : Segment) (e : Engine D S) (tl : List Segment) (k : ℕ)
      → Tiles a s.end tl
      → ((j : SegmentKind) (p : Option ℕ) → time_in j p tl ≡ time_in j p (s ∷ e.timelines c))
      → k ≤ opt.max_segments
      → Appended a s e (record e { timelines = update e.timelines c tl; segments = k })
  replaced a s e tl k t times room =
      let here = update-here e.timelines c tl in
      record {
        tiles = rw here t;
        times = λ j p. rw here (times j p);
        others = λ d h. rw h refl;
        bounded = room;
      }

  -- An empty segment changes nothing.
  unchanged :
      (a : ℕ) (s : Segment) (e : Engine D S)
      → Tiles a s.start (e.timelines c)
      → s.end ≡ s.start
      → e.segments ≤ opt.max_segments
      → Appended a s e e
  unfolding time_in
  unchanged a s e t empty room = record {
    tiles = subst (λ (x : ℕ). Tiles a x (e.timelines c)) (sym empty) t;
    times = λ k p. ground (arith, empty);
    others = λ d h. refl;
    bounded = room;
  }

  -- Appending a segment that starts where the timeline of core `c` ends, and that may be empty: unless the
  -- engine has failed, the timeline runs without a gap to the end of the segment, none of its segments is
  -- empty and no two neighbours could be merged; the time of each kind of segment and process grows by the
  -- segment's; the other timelines stay; and the number of segments stays within `max_segments`.
  pub append-Appended :
      (e : Engine D S) (s : Segment) (a : ℕ)
      → Tiles a s.start (e.timelines c)
      → s.start ≤ s.end
      → e.segments ≤ opt.max_segments
      → is_fine (append w opt e c s).fail ≡ true
      → Appended a s e (append w opt e c s)
  unfolding append
  append-Appended e s a t forward room =
      if_holds Fine (leb s.end s.start || not (is_fine e.fail))
        (λ nothing fine_now. unchanged a s e t (ground (arith, nothing, fine_now)) room)
        (λ some_time.
          let h : s.start < s.end = ground (arith, some_time) in
          if_holds Fine (extends (e.timelines c) s)
            (λ merges _.
              replaced a s e (stretch (e.timelines c) s.end) e.segments
                (stretch-Tiles a (e.timelines c) s t h merges)
                (λ k p. stretch-time k p a (e.timelines c) s t h merges) room)
            (λ apart.
              if_holds Fine (leb opt.max_segments e.segments) (λ _ bad. cc)
                (λ free _.
                  replaced a s e (s ∷ e.timelines c) (e.segments + 1) (refl, h, apart, t)
                    (λ k p. refl) (ground (arith, free)))))
    where
      Fine : Engine D S → Type 0
      Fine e' = is_fine e'.fail ≡ true → Appended a s e e'
