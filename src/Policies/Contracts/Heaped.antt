-- ===== src/Policies/Contracts/Heaped.antt =====
-- SJF, SRTF, stride and CFS keep the contract: their ready set is what the heap holds.
use mathlib.Core.List.Perm
use preemptive_and_non_preem.Base.{
  ℕ, Option, none, some, List, [], ◌≡◌, refl, sym, ap, ◌∙◌, if_holds, arith,
}
use preemptive_and_non_preem.Policy.{Float, View, PolicyParams}
use preemptive_and_non_preem.Core.{Process}
use preemptive_and_non_preem.Policy.Contract.{Contract, Answers, Answers-none, Answers-some}
use preemptive_and_non_preem.Util.Heap.{heap_empty}
use preemptive_and_non_preem.Util.Heap.Content.{heap_push-perm, heap_pop-perm, heap_empty-nil}
use preemptive_and_non_preem.Policies.Sjf.{
  policy_sjf, sjf_less, sjf_create, sjf_on_arrival, sjf_next_slice,
}
use preemptive_and_non_preem.Policies.Srtf.{
  policy_srtf, srtf_less, srtf_create, srtf_push, srtf_requeue, srtf_next_slice,
}
use preemptive_and_non_preem.Policies.Stride.{
  Stride, policy_stride, stride_less, stride_create, stride_arrival, stride_ready, stride_preempt,
  stride_done, stride_next_slice,
}
use preemptive_and_non_preem.Policies.Cfs.{
  Cfs, policy_cfs, cfs_less, cfs_create, cfs_arrival, cfs_ready, cfs_preempt, cfs_leave,
  cfs_next_slice, update_min_vruntime,
}

module _ {D : Type 0} (f : Float D) (procs : List Process) where
  -- SJF keeps the contract for any number of processes.
  pub sjf-Contract : Contract (policy_sjf f) procs
  unfolding policy_sjf sjf_create sjf_on_arrival sjf_next_slice
  sjf-Contract = record {
    IsGood = λ s. Unit {0};
    ready = λ s. s;
    creates = λ v params s _ _ h. (tt, (let e : some [] ≡ some s = h in cc));
    arrives = λ v s p _ _. (tt, heap_push-perm (sjf_less f v) s p);
    wakes = λ v s p _ _. (tt, heap_push-perm (sjf_less f v) s p);
    preempts = λ v s p ran _ _ h. absurd (h refl);
    blocks = λ v s p ran _. (tt, refl);
    completes = λ v s p ran _. (tt, refl);
    picks = λ v s _. (
      tt,
      if_holds (Answers (policy_sjf f) (λ t. t) s) (heap_empty s)
          (λ e. Answers-none (policy_sjf f) (λ t. t) s (heap_empty-nil s e))
          (λ e.
            let (r, popped, perm) = heap_pop-perm (sjf_less f v) s e in
            rw popped (Answers-some (policy_sjf f) (λ t. t) s r.1 _ (Perm.symm perm))),
    );
  }

  pub srtf-Contract : Contract (policy_srtf f) procs
  unfolding policy_srtf srtf_create srtf_push srtf_requeue srtf_next_slice
  srtf-Contract = record {
    IsGood = λ s. Unit {0};
    ready = λ s. s;
    creates = λ v params s _ _ h. (tt, (let e : some [] ≡ some s = h in cc));
    arrives = λ v s p _ _. (tt, heap_push-perm (srtf_less f v) s p);
    wakes = λ v s p _ _. (tt, heap_push-perm (srtf_less f v) s p);
    preempts = λ v s p ran _ _ _. (tt, heap_push-perm (srtf_less f v) s p);
    blocks = λ v s p ran _. (tt, refl);
    completes = λ v s p ran _. (tt, refl);
    picks = λ v s _. (
      tt,
      if_holds (Answers (policy_srtf f) (λ t. t) s) (heap_empty s)
          (λ e. Answers-none (policy_srtf f) (λ t. t) s (heap_empty-nil s e))
          (λ e.
            let (r, popped, perm) = heap_pop-perm (srtf_less f v) s e in
            rw popped (Answers-some (policy_srtf f) (λ t. t) s r.1 _ (Perm.symm perm))),
    );
  }

-- The ready set that `create` starts with, if it gives a state.
abbrev ready_in : {S : Type 0} → (S → List ℕ) → Option S → List ℕ
ready_in ready none = []
ready_in ready (some s) = ready s

module _ (D : Type 0) (procs : List Process) where
  stride_create-ready :
      (v : View D) (params : PolicyParams)
      → ready_in (λ (t : Stride). t.ready) (stride_create v params) ≡ []
  unfolding stride_create
  stride_create-ready v params = ground arith

  cfs_create-ready :
      (v : View D) (params : PolicyParams)
      → ready_in (λ (t : Cfs). t.ready) (cfs_create v params) ≡ []
  unfolding cfs_create
  cfs_create-ready v params = ground arith

  pub stride-Contract : Contract (policy_stride D) procs
  unfolding policy_stride stride_create stride_arrival stride_ready stride_preempt stride_done
      stride_next_slice
  stride-Contract = record {
    IsGood = λ s. Unit {0};
    ready = λ s. s.ready;
    creates = λ v params s _ _ h.
        (tt, sym (ap (ready_in (λ (t : Stride). t.ready)) h) ∙ stride_create-ready v params);
    arrives = λ v s p _ _. (tt, heap_push-perm _ s.ready p);
    wakes = λ v s p _ _. (tt, heap_push-perm _ s.ready p);
    preempts = λ v s p ran _ _ _. (tt, heap_push-perm _ s.ready p);
    blocks = λ v s p ran _. (tt, refl);
    completes = λ v s p ran _. (tt, refl);
    picks = λ v s _. (
      tt,
      if_holds (Answers (policy_stride D) (λ t. t.ready) s) (heap_empty s.ready)
          (λ e. Answers-none (policy_stride D) (λ t. t.ready) s (heap_empty-nil s.ready e))
          (λ e.
            let (r, popped, perm) = heap_pop-perm (stride_less v s) s.ready e in
            rw popped (Answers-some (policy_stride D) (λ t. t.ready) s _ _ (Perm.symm perm))),
    );
  }

  -- Moving `min_vruntime` keeps the ready set.
  ready-update_min_vruntime : (s : Cfs) → (update_min_vruntime s).ready ≡ s.ready
  unfolding update_min_vruntime
  ready-update_min_vruntime s = ground arith

  pub cfs-Contract : Contract (policy_cfs D) procs
  unfolding policy_cfs cfs_create cfs_arrival cfs_ready cfs_preempt cfs_leave cfs_next_slice
  cfs-Contract = record {
    IsGood = λ s. Unit {0};
    ready = λ s. s.ready;
    creates = λ v params s _ _ h.
        (tt, sym (ap (ready_in (λ (t : Cfs). t.ready)) h) ∙ cfs_create-ready v params);
    arrives = λ v s p _ _. (tt, rw (ready-update_min_vruntime _) (heap_push-perm _ s.ready p));
    wakes = λ v s p _ _. (tt, rw (ready-update_min_vruntime _) (heap_push-perm _ s.ready p));
    preempts =
        λ v s p ran _ _ _. (tt, rw (ready-update_min_vruntime _) (heap_push-perm _ s.ready p));
    blocks = λ v s p ran _. (tt, refl);
    completes = λ v s p ran _. (tt, refl);
    picks = λ v s _. (
      tt,
      if_holds (Answers (policy_cfs D) (λ t. t.ready) s) (heap_empty s.ready)
          (λ e. Answers-none (policy_cfs D) (λ t. t.ready) s (heap_empty-nil s.ready e))
          (λ e.
            let (r, popped, perm) = heap_pop-perm (cfs_less v s) s.ready e in
            rw popped (
              Answers-some (policy_cfs D) (λ t. t.ready) s _ _
                (rw (ready-update_min_vruntime _) (Perm.symm perm)))),
    );
  }
