-- ===== src/Policies/Contracts/Queued.antt =====
-- FCFS and Round Robin keep the contract: their ready set is what the ring holds, and no push fails
-- its assertion as long as the capacity is the number of processes.
use mathlib.Core.List.Perm
use mathlib.Core.Option
use preemptive_and_non_preem.Base.{
  ℕ, ◌<◌, ◌≡◌, refl, sym, ap, true, false, some, List, [], ◌∷◌, ◌∙◌, Perm, length, if_holds,
  concat-perm, arith,
}
use preemptive_and_non_preem.Core.{Process}
use preemptive_and_non_preem.Policy.Contract.{Contract, Answers, Answers-none, Answers-some}
use preemptive_and_non_preem.Util.Ring.{Ring, queue_init, queue_empty, queue_pop}
use preemptive_and_non_preem.Util.Ring.Refine.{
  IsValid, queue_init-IsValid, window, contents, length-contents, queue_push_correct,
  queue_pop_correct,
}
use preemptive_and_non_preem.Policies.Fcfs.{
  enqueue, policy_fcfs, fcfs_create, fcfs_on_arrival, fcfs_next_slice,
}
use preemptive_and_non_preem.Policies.Rr.{
  Rr, policy_rr, rr_create, rr_enqueue, rr_requeue, rr_next_slice,
}

-- A valid queue for `n` processes.
abbrev pub Holds : ℕ → Ring → Type 0
Holds n q = IsValid q × (q.cap ≡ n)

pub enqueue_lem :
    (n : ℕ) (q : Ring) (p : ℕ)
    → Holds n q
    → length (contents q) < n
    → Holds n (enqueue q p) × Perm (contents (enqueue q p)) (p ∷ contents q)
enqueue_lem n q p (ok, size) room =
    let (r, pushed, valid, cap_kept, content) =
      (queue_push_correct q p ok).0 (omega (arith, length-contents q, size, room)) in
    rw (pushed, enqueue) ((valid, cap_kept ∙ size), rw content (concat-perm (contents q) p))

pub queue_empty-nil : (q : Ring) → queue_empty q ≡ true → contents q ≡ []
unfolding queue_empty
queue_empty-nil q h = let e : q.len ≡ 0 = ground arith in ap (λ k. window q.items q.cap q.head k) e

-- what a pop of a queue that is not empty gives
dequeue_lem :
    (n : ℕ) (q : Ring)
    → Holds n q
    → queue_empty q ≡ false
    → (r : ℕ × Ring) × (queue_pop q ≡ some r) × Holds n r.1 × (contents q ≡ r.0 ∷ contents r.1)
unfolding queue_empty
dequeue_lem n q (ok, size) left =
    let (r, popped, valid, cap_kept, content) = (queue_pop_correct q ok).0 (ground arith) in
    (r, popped, (valid, cap_kept ∙ size), content)

-- The queue that `create` gives.
fresh_queue :
    {n : ℕ} (k : ℕ) (q : Ring)
    → k ≡ n
    → some (queue_init k) ≡ some q
    → Holds n q × (contents q ≡ [])
unfolding queue_init
fresh_queue k q size h =
    let e : queue_init k ≡ q = cc in rw (sym e) (((queue_init-IsValid k).0, size), refl)

module _ (D : Type 0) (procs : List Process) where
  pub fcfs-Contract : Contract (policy_fcfs D) procs
  unfolding policy_fcfs fcfs_create fcfs_on_arrival fcfs_next_slice
  fcfs-Contract = record {
    IsGood = Holds (length procs);
    ready = contents;
    creates = λ v params s _ size h. fresh_queue v.n s size h;
    arrives = λ v s p good room. enqueue_lem (length procs) s p good room.space;
    wakes = λ v s p good room. enqueue_lem (length procs) s p good room.space;
    preempts = λ v s p ran _ _ h. absurd (h refl);
    blocks = λ v s p ran good. (good, refl);
    completes = λ v s p ran good. (good, refl);
    picks = λ v s good.
        if_holds (λ r. Holds (length procs) r.1 × Answers (policy_fcfs D) contents s r)
          (queue_empty s)
          (λ e. (good, Answers-none (policy_fcfs D) contents s (queue_empty-nil s e)))
          (λ e.
            let (r, popped, kept, content) = dequeue_lem (length procs) s good e in
            rw popped (kept, Answers-some (policy_fcfs D) contents s r.1 _ (rw content Perm.rfl)));
  }

  pub rr-Contract : Contract (policy_rr D) procs
  unfolding policy_rr rr_create rr_enqueue rr_requeue rr_next_slice
  rr-Contract = record {
    IsGood = λ s. Holds (length procs) s.ready;
    ready = λ s. contents s.ready;
    creates = λ v params s _ size h.
        fresh_queue v.n s.ready size (ap (Option.map (λ (t : Rr). t.ready)) h);
    arrives = λ v s p good room. enqueue_lem (length procs) s.ready p good room.space;
    wakes = λ v s p good room. enqueue_lem (length procs) s.ready p good room.space;
    preempts = λ v s p ran good room _. enqueue_lem (length procs) s.ready p good room.space;
    blocks = λ v s p ran good. (good, refl);
    completes = λ v s p ran good. (good, refl);
    picks = λ v s good.
        if_holds
          (λ r. Holds (length procs) r.1.ready × Answers (policy_rr D) (λ t. contents t.ready) s r)
          (queue_empty s.ready)
          (λ e. (
            good,
            Answers-none (policy_rr D) (λ t. contents t.ready) s (queue_empty-nil s.ready e),
          ))
          (λ e.
            let (r, popped, kept, content) = dequeue_lem (length procs) s.ready good e in
            rw popped (
              kept,
              Answers-some (policy_rr D) (λ t. contents t.ready) s _ _ (rw content Perm.rfl),
            ));
  }
