-- ===== src/Muduo/EventLoop/Pending.antt =====
-- mymuduo-main/src/EventLoop.cpp: what becomes of the functions that are queued.
use mprpc_main.Common.{
  ◌≡◌, refl, sym, ap, ap₂, ◌∙◌, Bool, true, false, not, ◌||◌, List, [], ◌∷◌, ◌++◌, append_assoc,
  append-nil, inl, inr, Bool-cases,
}
use mprpc_main.Muduo.EventLoop.{
  EventLoop, wakeup, queue_in_loop, queue_all, run_task, run_all, do_pending_functions,
}

module _ {Task : Type 0} where
  queue_in_loop-pending :
      (here : Bool) (f : Task) (l : EventLoop Task)
      → ((queue_in_loop here f l).pending ≡ l.pending ++ (f ∷ []))
        × ((queue_in_loop here f l).ran ≡ l.ran)
        × ((queue_in_loop here f l).calling_pending ≡ l.calling_pending)
  unfolding queue_in_loop wakeup
  queue_in_loop-pending here f l = elim (Bool-cases (not here || l.calling_pending)) [
    | inl e ↦ rw e (refl, refl, refl)
    | inr e ↦ rw e (refl, refl, refl)
  ]

  abbrev functions : List (Bool × Task) → List Task
  functions [] = []
  functions ((here, f) ∷ gs) = f ∷ functions gs

  module _ (queues : List Task → Task → List (Bool × Task)) where
    -- What is queued while the functions run, behind those of `ran`.
    abbrev pub all_queued : List Task → List Task → List Task
    all_queued ran [] = []
    all_queued ran (f ∷ fs) = functions (queues ran f) ++ all_queued (ran ++ (f ∷ [])) fs

    queue_all-pending :
        (gs : List (Bool × Task)) (l : EventLoop Task)
        → ((queue_all queues gs l).pending ≡ l.pending ++ functions gs)
          × ((queue_all queues gs l).ran ≡ l.ran)
    unfolding queue_all
    queue_all-pending [] l = (sym (append-nil l.pending), refl)
    queue_all-pending ((here, g) ∷ gs) l =
        let (p, r) = queue_all-pending gs (queue_in_loop here g l) in
        let (q, s, t) = queue_in_loop-pending here g l in
        (p ∙ ap (λ x. x ++ functions gs) q ∙ append_assoc l.pending (g ∷ []) (functions gs), r ∙ s)

    run_all-pending :
        (fs : List Task) (l : EventLoop Task)
        → ((run_all queues fs l).pending ≡ l.pending ++ all_queued l.ran fs)
          × ((run_all queues fs l).ran ≡ l.ran ++ fs)
    unfolding run_all run_task
    run_all-pending [] l = (sym (append-nil l.pending), sym (append-nil l.ran))
    run_all-pending (f ∷ fs) l =
        let l' = run_task queues f l in
        let (p, r) = run_all-pending fs l' in
        let (q, s) = queue_all-pending (queues l.ran f) (record l { ran = l.ran ++ (f ∷ []) }) in
        (
          p
              ∙ ap₂ (λ x y. x ++ all_queued y fs) q s
              ∙ append_assoc l.pending (functions (queues l.ran f))
                  (all_queued (l.ran ++ (f ∷ [])) fs),
          r ∙ ap (λ x. x ++ fs) s ∙ append_assoc l.ran (f ∷ []) fs,
        )

    -- `doPendingFunctions` runs just the functions that waited when it took the queue, in the order
    -- in which they were queued. Whatever they queue themselves, and other threads between or
    -- during their runs, is not run: just that waits at the end, in the order in which it came.
    pub do_pending_functions-ran :
        (l : EventLoop Task)
        → ((do_pending_functions queues l).ran ≡ l.ran ++ l.pending)
          × ((do_pending_functions queues l).pending ≡ all_queued l.ran l.pending)
          × ((do_pending_functions queues l).calling_pending ≡ false)
    unfolding do_pending_functions
    do_pending_functions-ran l =
        let (p, r) =
          run_all-pending l.pending (record l { calling_pending = true; pending = [] }) in
        (r, p, refl)
