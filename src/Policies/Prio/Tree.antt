-- ===== src/Policies/Prio/Tree.antt =====
-- src/policies/priority.c, the ready processes: a treap ordered by (r, pid) whose nodes also know the
-- best process below them. A node is a process index, and each is linked from one place at most, so
-- the tree that the arrays `left`, `right` and `best` hold is read as a value.
use preemptive_and_non_preem.Base.{
  ℕ, Bool, Option, none, some, List, [], ◌∷◌, ◌++◌, ltb, ◌==◌, if◌then◌else◌,
}
use preemptive_and_non_preem.Base.Int.{ℤ, pos, negsuc, ltb_ℤ, eqb_ℤ, i64_max, i64_min}
use preemptive_and_non_preem.Core.{Process}
use preemptive_and_non_preem.Policy.{pid_of, earlier}
use preemptive_and_non_preem.Util.Checked.{ck_sub_i64}

-- `leaf` is NIL; a node has its left subtree, its process, `best` and its right subtree.
pub data Treap : Type 0 where
  leaf : Treap
  node : Treap → ℕ → Option ℕ → Treap → Treap

-- `procs` are those of the view that `create` is given. A process in the queue has waited `waited`
-- ticks in its burst before `ready_since`.
pub record Prio : Type 0 where
  pub procs : List Process
  pub preemptive : Bool
  pub aging : ℕ
  pub waited : ℕ → ℕ
  pub ready_since : ℕ → ℕ
  pub root : Treap
  pub heap_prio : ℕ → ℕ
  pub r : ℕ → ℤ
  pub base : ℕ → ℤ

unfoldable pub sat_sub : ℤ → ℤ → ℤ
unfolding ck_sub_i64
sat_sub a b = elim (ck_sub_i64 a b) [
  | none ↦ if ltb_ℤ b (pos 0) then i64_max else i64_min
  | some d ↦ d
]

unfoldable pub key_less : Prio → ℕ → ℤ → ℕ → ℤ → Bool
unfolding sat_sub
key_less s x bump_x y bump_y =
    let ex = sat_sub (s.base x) bump_x in
    let ey = sat_sub (s.base y) bump_y in if eqb_ℤ ex ey then earlier s.procs x y else ltb_ℤ ex ey

-- `none` is NIL.
unfoldable pub better_of : Prio → Option ℕ → Option ℕ → Option ℕ
unfolding key_less
better_of s none o = o
better_of s (some x) none = some x
better_of s (some x) (some y) = if key_less s y (pos 0) x (pos 0) then some y else some x

unfoldable pub node_before : Prio → ℕ → ℕ → Bool
node_before s x y =
    if eqb_ℤ (s.r x) (s.r y)
    then ltb (pid_of s.procs x) (pid_of s.procs y)
    else ltb_ℤ (s.r x) (s.r y)

-- `best[t]`, and NIL for NIL.
abbrev pub best_of : Treap → Option ℕ
best_of leaf = none
best_of (node l x b r) = b

-- The node `t` with new subtrees and the best of the three.
unfoldable pub pull : Prio → Treap → ℕ → Treap → Treap
unfolding better_of
pull s l t r = node l t (better_of s (better_of s (some t) (best_of l)) (best_of r)) r

-- The nodes ordered before `x`, and the rest.
unfoldable pub split : Prio → Treap → ℕ → Treap × Treap
unfolding node_before pull
split s leaf x = (leaf, leaf)
split s (node l t b r) x =
    let below = split s r x in
    let above = split s l x in
    if node_before s t x then (pull s l t below.0, below.1) else (above.0, pull s above.1 t r)

unfoldable pub insert : Prio → Treap → ℕ → Treap
unfolding split node_before pull
insert s leaf x = node leaf x (some x) leaf
insert s (node l t b r) x =
    let in_left = insert s l x in
    let in_right = insert s r x in
    let (below, above) = split s (node l t b r) x in
    if ltb (s.heap_prio t) (s.heap_prio x)
    then pull s below x above
    else if node_before s x t
    then pull s in_left t r
    else pull s l t in_right

-- The rounds of `merge` on the left spine of the second tree, where the first one is the node `ta`;
-- `merge_right` merges the right subtree of the first with what it is given.
unfoldable pub merge_onto : Prio → Treap → ℕ → Option ℕ → Treap → (Treap → Treap) → Treap → Treap
unfolding pull
merge_onto s la ta ba ra merge_right leaf = node la ta ba ra
merge_onto s la ta ba ra merge_right (node lb tb bb rb) =
    let left = merge_onto s la ta ba ra merge_right lb in
    if ltb (s.heap_prio tb) (s.heap_prio ta)
    then pull s la ta (merge_right (node lb tb bb rb))
    else pull s left tb rb

unfoldable pub merge : Prio → Treap → Treap → Treap
unfolding merge_onto
merge s leaf b = b
merge s (node la ta ba ra) b = merge_onto s la ta ba ra (λ t. merge s ra t) b

-- `x` is in the tree; the search never reaches NIL.
unfoldable pub erase : Prio → Treap → ℕ → Treap
unfolding node_before pull merge
erase s leaf x = leaf
erase s (node l t b r) x =
    let in_left = erase s l x in
    let in_right = erase s r x in
    if t == x
    then merge s l r
    else if node_before s x t
    then pull s in_left t r
    else pull s l t in_right

-- The rounds of the loop of `best_below` from the node `t` on.
unfoldable pub best_below_from : Prio → ℤ → Treap → Option ℕ → Option ℕ
unfolding better_of
best_below_from s limit leaf res = res
best_below_from s limit (node l t b r) res =
    let right = best_below_from s limit r (better_of s (better_of s res (some t)) (best_of l)) in
    let left = best_below_from s limit l res in if ltb_ℤ (s.r t) limit then right else left

unfoldable pub best_below : Prio → ℤ → Option ℕ
unfolding best_below_from
best_below s limit = best_below_from s limit s.root none

unfoldable pub best_above_from : Prio → ℤ → Treap → Option ℕ → Option ℕ
unfolding better_of
best_above_from s limit leaf res = res
best_above_from s limit (node l t b r) res =
    let left = best_above_from s limit l (better_of s (better_of s res (some t)) (best_of r)) in
    let right = best_above_from s limit r res in if ltb_ℤ (s.r t) limit then right else left

unfoldable pub best_at_or_above : Prio → ℤ → Option ℕ
unfolding best_above_from
best_at_or_above s limit = best_above_from s limit s.root none

unfoldable pub max_r_from : Prio → ℤ → Treap → ℤ → ℤ
max_r_from s limit leaf ans = ans
max_r_from s limit (node l t b r) ans =
    let right = max_r_from s limit r (s.r t) in
    let left = max_r_from s limit l ans in if ltb_ℤ (s.r t) limit then right else left

unfoldable pub max_r_below : Prio → ℤ → ℤ
unfolding max_r_from
max_r_below s limit = max_r_from s limit s.root (negsuc 0)

-- `max_r` of the tree that starts with this node.
unfoldable pub last_r : Prio → ℕ → Treap → ℤ
last_r s t leaf = s.r t
last_r s t (node l x b r) = last_r s x r

-- The tree is not empty where it is called.
unfoldable pub max_r : Prio → ℤ
unfolding last_r
max_r s = elim s.root [ leaf ↦ pos 0 | node l t b r ↦ last_r s t r ]

-- The processes in the order of the tree.
unfoldable pub inorder : Treap → List ℕ
inorder leaf = []
inorder (node l x b r) = inorder l ++ x ∷ inorder r
