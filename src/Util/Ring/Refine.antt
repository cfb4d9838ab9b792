-- ===== src/Util/Ring/Refine.antt =====
-- A valid ring behaves as the bounded list of the entries that it holds, oldest first.
use native.Mathlib.Nat.{mod-eq_of_lt, mod-eq-sub-mod, mod-add-mod}
use native.Mathlib.Numerals.{add-one}
use preemptive_and_non_preem.Base.{
  List, [], ◌∷◌, ◌++◌, length, length-append, length-set, length-replicate, get_or, get_or-set, set,
  none, some, ℕ, zero, suc, ◌≡◌, ◌<◌, ◌≤◌, ◌%◌, ◌-◌, ◌+◌, refl, sym, ap, ◌∙◌, arith, inl, inr,
  Bool-cases, ltb, if◌then◌else◌, ◌==◌, lt→ltb, le→ltb,
}
use preemptive_and_non_preem.Util.Ring.{Ring, queue_init, queue_push, queue_pop}

pub record IsValid (q : Ring) : Type 0 where
  pub storage : q.cap ≤ length q.items
  pub head_in : q.head ≤ q.cap - 1
  pub len_in : q.len ≤ q.cap

-- The `n` entries from index `h` on, going round at `cap`, oldest first.
abbrev pub window : List ℕ → ℕ → ℕ → ℕ → List ℕ
window items cap h zero = []
window items cap h (suc n) = window items cap h n ++ get_or items ((h + n) % cap) 0 ∷ []

abbrev pub contents : Ring → List ℕ
contents q = window q.items q.cap q.head q.len

pub length-contents : (q : Ring) → length (contents q) ≡ q.len
length-contents q = entries q.len
  where
    entries : (n : ℕ) → length (window q.items q.cap q.head n) ≡ n
    entries zero = refl
    entries (suc n) = omega (arith, entries n, length-append (window q.items q.cap q.head n))

-- An index that has gone round once at most.
round : (cap x : ℕ) → x < cap + cap → x % cap ≡ (if ltb x cap then x else x - cap)
round cap x h = elim (Bool-cases (ltb x cap)) [
  | inl before ↦ let lo : x < cap = ground arith in rw before (mod-eq_of_lt lo)
  | inr after ↦
      let hi : cap ≤ x = ground arith in
      let back : x - cap < cap = omega arith in rw after (mod-eq-sub-mod hi ∙ mod-eq_of_lt back)
]

-- A write next to the window leaves the window as it is.
window-set :
    (items : List ℕ) (cap v h m n : ℕ)
    → cap ≤ length items
    → h < cap
    → m < cap
    → n ≤ m
    → window (set items ((h + m) % cap) v) cap h n ≡ window items cap h n
window-set items cap v h m zero size start gap inside = refl
window-set items cap v h m (suc n) size start gap inside =
    let there = round cap (h + m) (omega arith) in
    let here = round cap (h + n) (omega arith) in
    let kept : get_or (set items ((h + m) % cap) v) ((h + n) % cap) 0
        ≡ get_or items ((h + n) % cap) 0 =
      ground (arith, there, here, get_or-set items ((h + m) % cap) ((h + n) % cap) v 0) in
    rw (kept, window-set items cap v h m n size start gap (omega arith)) refl

window-push :
    (items : List ℕ) (cap v h n : ℕ)
    → cap ≤ length items
    → h < cap
    → n < cap
    → window (set items ((h + n) % cap) v) cap h (suc n) ≡ window items cap h n ++ v ∷ []
window-push items cap v h n size start gap =
    let there = round cap (h + n) (omega arith) in
    let new : get_or (set items ((h + n) % cap) v) ((h + n) % cap) 0 ≡ v =
      ground (arith, there, get_or-set items ((h + n) % cap) ((h + n) % cap) v 0) in
    rw (new, window-set items cap v h n n size start gap (omega arith)) refl

-- The window without its oldest entry starts one further.
window-suc :
    (items : List ℕ) (cap h n : ℕ)
    → h < cap
    → window items cap h (suc n) ≡ get_or items h 0 ∷ window items cap ((h + 1) % cap) n
window-suc items cap h zero start =
    let e : (h + 0) % cap ≡ h = ap (λ x. x % cap) (omega arith) ∙ mod-eq_of_lt start in rw e refl
window-suc items cap h (suc n) start =
    let e : ((h + 1) % cap + n) % cap ≡ (h + suc n) % cap =
      mod-add-mod (h + 1) cap n ∙ ap (λ x. x % cap) (omega arith) in
    ap (λ xs. xs ++ get_or items ((h + suc n) % cap) 0 ∷ []) (window-suc items cap h n start)
    ∙ ap (λ i. get_or items h 0 ∷ (window items cap ((h + 1) % cap) n ++ get_or items i 0 ∷ []))
        (sym e)

pub queue_init-IsValid : (cap : ℕ) → IsValid (queue_init cap) × (contents (queue_init cap) ≡ [])
unfolding queue_init
queue_init-IsValid cap = (
  record {
    storage = ground (arith, length-replicate {A = ℕ} (if cap == 0 then 1 else cap) 0);
    head_in = omega arith;
    len_in = omega arith;
  },
  refl,
)

-- A push into a valid queue with room appends the value and keeps the queue valid; a push into a
-- full one fails its assertion.
pub queue_push_correct :
    (q : Ring) (v : ℕ)
    → IsValid q
    → (q.len < q.cap
        → (r : Ring) × (queue_push q v ≡ some r)
          × IsValid r
          × (r.cap ≡ q.cap)
          × (contents r ≡ contents q ++ v ∷ []))
      × (q.cap ≤ q.len → queue_push q v ≡ none)
unfolding queue_push
queue_push_correct q v ok = (
  λ room.
      let i = (q.head + q.len) % q.cap in
      let size = length-set q.items i v in
      (
        record q { items = set q.items i v; len = q.len + 1 },
        rw (lt→ltb room),
        record { storage = rw size ok.storage; head_in = ok.head_in; len_in = omega arith },
        refl,
        ap (window (set q.items i v) q.cap q.head) (add-one q.len)
            ∙ window-push q.items q.cap v q.head q.len ok.storage (omega (arith, ok.head_in)) room,
      ),
  λ full. rw (le→ltb full),
)

-- A pop of a valid queue that is not empty returns the oldest value and keeps the queue valid with the
-- others in order; a pop of an empty one fails its assertion.
pub queue_pop_correct :
    (q : Ring)
    → IsValid q
    → (0 < q.len
        → (r : ℕ × Ring) × (queue_pop q ≡ some r)
          × IsValid r.1
          × (r.1.cap ≡ q.cap)
          × (contents q ≡ r.0 ∷ contents r.1))
      × (q.len ≡ 0 → queue_pop q ≡ none)
unfolding queue_pop
queue_pop_correct q ok = (
  λ some_left. (
    (get_or q.items q.head 0, record q { head = (q.head + 1) % q.cap; len = q.len - 1 }),
    rw (lt→ltb some_left),
    record {
      storage = ok.storage;
      head_in = omega (arith, ok.len_in);
      len_in = omega (arith, ok.len_in);
    },
    refl,
    (let size : q.len ≡ suc (q.len - 1) = omega arith in ap (window q.items q.cap q.head) size)
        ∙ window-suc q.items q.cap q.head (q.len - 1) (omega (arith, ok.head_in, ok.len_in)),
  ),
  λ none_left. rw none_left,
)
