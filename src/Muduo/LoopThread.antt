-- ===== src/Muduo/LoopThread.antt =====
-- mymuduo-main/src/EventLoopThread.cpp: a thread that runs a loop, and the thread that owns it, as
-- steps. Nothing but the destructor quits the loop here.
pub mod Quit
mod Tests
use mprpc_main.Common.{ℕ, zero, suc, ◌≡◌, Bool, true, false, List, if◌then◌else◌}
use mprpc_main.Muduo.EventLoop
use mprpc_main.Muduo.EventLoop.{EventLoop}

-- Where `threadFunc` stands: not begun; before it publishes its loop; before it calls `loop`; at
-- the test of `quit_` in `loop`; in `poll`; behind `loop`; at its end.
pub data Phase : Type 0 where
  unborn constructed published in_loop polling left over : Phase

-- Where the owner stands: it has made the object; waits in `startLoop`; has its loop; has found
-- `loop_` set in the destructor; waits in `join`; is done.
pub data Owner : Type 0 where
  made waiting served quitting joining gone : Owner

module _ (Task : Type 0) where
  -- `loop` says that `loop_` is not null.
  pub record LoopThread : Type 0 where
    pub loop : Bool
    pub exiting : Bool
    pub thread : Phase
    pub owner : Owner
    pub event_loop : EventLoop Task

module _ {Task : Type 0} where
  -- The constructor.
  unfoldable pub new : LoopThread Task
  new = record {
    loop = false;
    exiting = false;
    thread = unborn;
    owner = made;
    event_loop = EventLoop.create;
  }

  -- `startLoop`, up to its wait, with the start of `threadFunc`.
  unfoldable pub start_loop : LoopThread Task → LoopThread Task
  start_loop s = record s { owner = waiting; thread = constructed; event_loop = EventLoop.create }

  -- `threadFunc`: `loop_ = &loop`, and `notify_one`.
  unfoldable pub publish : LoopThread Task → LoopThread Task
  publish s = record s { loop = true; thread = published }

  -- `startLoop` goes on, and returns.
  unfoldable pub got_loop : LoopThread Task → LoopThread Task
  got_loop s = record s { owner = served }

  -- `threadFunc` calls `loop`, which calls `poll`, goes on behind `poll` to the end of the round,
  -- and comes back. Of the owner's steps only `quit` touches the loop, and a round does not read
  -- `quit_`, so the round is one step.
  unfoldable pub enter : LoopThread Task → LoopThread Task
  enter s = record s { thread = in_loop; event_loop = EventLoop.begin_loop s.event_loop }

  unfoldable pub poll : LoopThread Task → LoopThread Task
  poll s = record s { thread = polling }

  unfoldable pub go_round :
      (List Task → Task → List (Bool × Task)) → List Task → LoopThread Task → LoopThread Task
  go_round queues handlers s = record s {
    thread = in_loop;
    event_loop = EventLoop.loop_round queues handlers s.event_loop;
  }

  unfoldable pub leave : LoopThread Task → LoopThread Task
  leave s = record s { thread = left; event_loop = EventLoop.end_loop s.event_loop }

  -- `threadFunc`: `loop_ = nullptr`, and its end.
  unfoldable pub clear : LoopThread Task → LoopThread Task
  clear s = record s { loop = false; thread = over }

  -- The destructor, up to its test of `loop_`.
  unfoldable pub destroy : LoopThread Task → LoopThread Task
  destroy s = record s { exiting = true; owner = if s.loop then quitting else gone }

  -- The destructor: `loop_->quit()` from another thread, before `join`.
  unfoldable pub quit : LoopThread Task → LoopThread Task
  quit s = record s { owner = joining; event_loop = EventLoop.quit_loop false s.event_loop }

  unfoldable pub join : LoopThread Task → LoopThread Task
  join s = record s { owner = gone }

  -- The steps of the two threads, with the conditions that they wait for. `poll` comes back at once
  -- if `wakeupFd_` can be read, which is `wakeups` other than zero, and otherwise only when another
  -- channel is ready or `kPollerTimeoutMs` is over, so `rounds` may have to wait.
  pub data Step (s : LoopThread Task) : LoopThread Task → Type 0 where
    starts : s.owner ≡ made → Step s (start_loop s)
    publishes : s.thread ≡ constructed → Step s (publish s)
    gets : s.owner ≡ waiting → s.loop ≡ true → Step s (got_loop s)
    enters : s.thread ≡ published → Step s (enter s)
    polls : s.thread ≡ in_loop → s.event_loop.quit ≡ false → Step s (poll s)
    rounds :
        s.thread ≡ polling
        → (queues : List Task → Task → List (Bool × Task)) (handlers : List Task)
        → Step s (go_round queues handlers s)
    leaves : s.thread ≡ in_loop → s.event_loop.quit ≡ true → Step s (leave s)
    clears : s.thread ≡ left → Step s (clear s)
    destroys : s.owner ≡ served → Step s (destroy s)
    drops : s.owner ≡ made → Step s (destroy s)
    quits : s.owner ≡ quitting → Step s (quit s)
    joins : s.owner ≡ joining → s.thread ≡ over → Step s (join s)

  -- So many steps.
  pub data Steps : ℕ → LoopThread Task → LoopThread Task → Type 0 where
    none : {s : LoopThread Task} → Steps 0 s s
    more : {n : ℕ} {s s' s'' : LoopThread Task} → Steps n s s' → Step s' s'' → Steps (suc n) s s''
