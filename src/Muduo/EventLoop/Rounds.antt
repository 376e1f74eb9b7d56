-- ===== src/Muduo/EventLoop/Rounds.antt =====
-- A round of the loop of mymuduo-main/src/EventLoop.cpp does not touch `quit_`.
use mprpc_main.Common.{
  ℕ, zero, suc, ◌≡◌, refl, ◌∙◌, Bool, true, not, ◌||◌, inl, inr, Bool-cases, List, [], ◌∷◌, ◌++◌,
}
use mprpc_main.Muduo.EventLoop.{
  EventLoop, wakeup, queue_in_loop, queue_all, run_task, run_all, do_pending_functions, handle_read,
  loop_round,
}

module _ {Task : Type 0} (queues : List Task → Task → List (Bool × Task)) where
  queue_in_loop-quit :
      (here : Bool) (g : Task) (l : EventLoop Task) → (queue_in_loop here g l).quit ≡ l.quit
  unfolding queue_in_loop wakeup
  queue_in_loop-quit here g l = elim (Bool-cases (not here || l.calling_pending)) [
    | inl e ↦ rw e refl
    | inr e ↦ rw e refl
  ]

  queue_all-quit :
      (gs : List (Bool × Task)) (l : EventLoop Task) → (queue_all queues gs l).quit ≡ l.quit
  unfolding queue_all
  queue_all-quit [] l = refl
  queue_all-quit ((here, g) ∷ gs) l =
      queue_all-quit gs (queue_in_loop here g l) ∙ queue_in_loop-quit here g l

  run_all-quit : (fs : List Task) (l : EventLoop Task) → (run_all queues fs l).quit ≡ l.quit
  unfolding run_all run_task
  run_all-quit [] l = refl
  run_all-quit (f ∷ fs) l =
      run_all-quit fs (run_task queues f l)
      ∙ queue_all-quit (queues l.ran f) (record l { ran = l.ran ++ (f ∷ []) })

  pub loop_round-quit :
      (handlers : List Task) (l : EventLoop Task) → (loop_round queues handlers l).quit ≡ l.quit
  unfolding loop_round do_pending_functions handle_read
  loop_round-quit handlers l =
      let l' = run_all queues handlers (elim l.wakeups [ zero ↦ l | suc n ↦ handle_read l ]) in
      run_all-quit l'.pending (record l' { calling_pending = true; pending = [] })
      ∙ run_all-quit handlers (elim l.wakeups [ zero ↦ l | suc n ↦ handle_read l ])
      ∙ read l.wakeups
    where
      read :
          (n : ℕ)
          → (elim n as (λ _. EventLoop Task) [ zero ↦ l | suc n ↦ handle_read l ]).quit ≡ l.quit
      read zero = refl
      read (suc n) = refl
