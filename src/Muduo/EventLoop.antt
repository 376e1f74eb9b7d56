-- ===== src/Muduo/EventLoop.antt =====
-- mymuduo-main/src/EventLoop.cpp: the queue of functions that other threads hand to a loop. A
-- function is any state change of type `Task`; running one is a parameter and may queue more.
-- `queueInLoop` and the swap in `doPendingFunctions` hold the mutex; behind the swap other threads
-- may queue while the functions run. What the loop has run is recorded, in order.
pub mod Wakeup
pub mod Pending
pub mod Rounds
mod Tests
use mprpc_main.Common.{
  ℕ, zero, suc, ◌+◌, Bool, true, false, not, ◌||◌, List, [], ◌∷◌, ◌++◌, if◌then◌else◌,
}

module _ (Task : Type 0) where
  -- `wakeups` counts the writes to `wakeupFd_` that no read has fetched yet.
  pub record EventLoop : Type 0 where
    pub pending : List Task
    pub calling_pending : Bool
    pub wakeups : ℕ
    pub looping : Bool
    pub quit : Bool
    pub ran : List Task

module _ {Task : Type 0} where
  pub create : EventLoop Task
  create = record {
    pending = [];
    calling_pending = false;
    wakeups = 0;
    looping = false;
    quit = false;
    ran = [];
  }

  unfoldable pub wakeup : EventLoop Task → EventLoop Task
  wakeup l = record l { wakeups = l.wakeups + 1 }

  -- `queueInLoop`; the flag tells whether the caller is the loop's thread.
  pub queue_in_loop : Bool → Task → EventLoop Task → EventLoop Task
  unfolding wakeup
  queue_in_loop here f l =
      let queued = record l { pending = l.pending ++ (f ∷ []) } in
      if not here || l.calling_pending then wakeup queued else queued

  -- `quit()`.
  unfoldable pub quit_loop : Bool → EventLoop Task → EventLoop Task
  unfolding wakeup
  quit_loop here l = if here then record l { quit = true } else wakeup (record l { quit = true })

  -- `loop`, up to its first test of `quit_`, and behind its last one.
  unfoldable pub begin_loop : EventLoop Task → EventLoop Task
  begin_loop l = record l { looping = true; quit = false }

  unfoldable pub end_loop : EventLoop Task → EventLoop Task
  end_loop l = record l { looping = false }

  -- `EventLoop::handleRead`: one read of the event descriptor fetches all that was written.
  pub handle_read : EventLoop Task → EventLoop Task
  handle_read l = record l { wakeups = 0 }

  -- `queues ran f` is what is queued in the course of the run of `f`, behind those of `ran`, in
  -- order: by `f` itself, in the loop's thread (`true`), or by another thread meanwhile (`false`),
  -- since no mutex is held while a function runs. What another thread queues between two runs is
  -- counted with one of them.
  module _ (queues : List Task → Task → List (Bool × Task)) where
    queue_all : List (Bool × Task) → EventLoop Task → EventLoop Task
    queue_all [] l = l
    queue_all ((here, g) ∷ gs) l = queue_all gs (queue_in_loop here g l)

    -- A call of a function.
    pub run_task : Task → EventLoop Task → EventLoop Task
    unfolding queue_all
    run_task f l = queue_all (queues l.ran f) (record l { ran = l.ran ++ (f ∷ []) })

    -- `runInLoop`.
    pub run_in_loop : Bool → Task → EventLoop Task → EventLoop Task
    run_in_loop here f l = if here then run_task f l else queue_in_loop here f l

    pub run_all : List Task → EventLoop Task → EventLoop Task
    run_all [] l = l
    run_all (f ∷ fs) l = run_all fs (run_task f l)

    -- `doPendingFunctions`: the queue is swapped out, so what is queued meanwhile waits for the
    -- next round.
    pub do_pending_functions : EventLoop Task → EventLoop Task
    do_pending_functions l =
        record (run_all l.pending (record l { calling_pending = true; pending = [] })) {
          calling_pending = false;
        }

    -- One round of `loop`, behind `poll` and the handlers of the active channels, which are the
    -- read of the event descriptor, if it was readable, and functions of other channels.
    pub loop_round : List Task → EventLoop Task → EventLoop Task
    loop_round handlers l =
        do_pending_functions
          (run_all handlers (elim l.wakeups [ zero ↦ l | suc n ↦ handle_read l ]))
