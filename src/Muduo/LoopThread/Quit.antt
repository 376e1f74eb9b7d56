-- ===== src/Muduo/LoopThread/Quit.antt =====
-- When the destructor of mymuduo-main/src/EventLoopThread.cpp comes back from `join`.
use mprpc_main.Common.{ℕ, ◌≡◌, ◌≢◌, refl, ◌∙◌, true, false, [], ◌⊎◌, inl, inr}
use mprpc_main.Muduo.EventLoop
use mprpc_main.Muduo.EventLoop.{EventLoop}
use mprpc_main.Muduo.EventLoop.Rounds.{loop_round-quit}
use mprpc_main.Muduo.LoopThread.{
  Phase, published, in_loop, polling, left, over, Owner, quitting, joining, gone, LoopThread, enter,
  poll, go_round, quit, Step, starts, publishes, gets, enters, polls, rounds, leaves, clears,
  destroys, drops, quits, joins, Steps, none, more,
}

-- What is left of the two threads once the loop knows of the quit.
abbrev pub remaining : Owner → Phase → ℕ
remaining gone _ = 0
remaining _ polling = 4
remaining _ in_loop = 3
remaining _ left = 2
remaining _ _ = 1

module _ {Task : Type 0} where
  -- The quit was lost: the loop has not been entered yet, or runs without knowing of it.
  Lost : LoopThread Task → Type 0
  Lost s =
      (s.owner ≡ joining)
      × ((s.thread ≡ published)
          ⊎ (((s.thread ≡ in_loop) ⊎ (s.thread ≡ polling)) × (s.event_loop.quit ≡ false)))

  Step-Lost : {s s' : LoopThread Task} → Lost s → Step s s' → Lost s'
  unfolding enter poll go_round EventLoop.begin_loop Lost
  Step-Lost (o, t) (starts e) = cc
  Step-Lost (o, inl t) (publishes e) = cc
  Step-Lost (o, inr (inl t, q)) (publishes e) = cc
  Step-Lost (o, inr (inr t, q)) (publishes e) = cc
  Step-Lost (o, t) (gets e f) = cc
  Step-Lost (o, t) (enters e) = (o, inr (inl refl, refl))
  Step-Lost (o, t) (polls e f) = (o, inr (inr refl, f))
  Step-Lost (o, inl t) (rounds e queues handlers) = cc
  Step-Lost {s} (o, inr (t, f)) (rounds e queues handlers) =
      (o, inr (inl refl, loop_round-quit queues handlers s.event_loop ∙ f))
  Step-Lost (o, inl t) (leaves e f) = cc
  Step-Lost (o, inr t) (leaves e f) = cc
  Step-Lost (o, inl t) (clears e) = cc
  Step-Lost (o, inr (inl t, q)) (clears e) = cc
  Step-Lost (o, inr (inr t, q)) (clears e) = cc
  Step-Lost (o, t) (destroys e) = cc
  Step-Lost (o, t) (drops e) = cc
  Step-Lost (o, t) (quits e) = cc
  Step-Lost (o, inl t) (joins e f) = cc
  Step-Lost (o, inr (inl t, q)) (joins e f) = cc
  Step-Lost (o, inr (inr t, q)) (joins e f) = cc

  Steps-Lost : {n : ℕ} {s s' : LoopThread Task} → Lost s → Steps n s s' → Lost s'
  Steps-Lost h none = h
  Steps-Lost h (more r e) = Step-Lost (Steps-Lost h r) e

  Lost-waits :
      (s : LoopThread Task)
      → Lost s
      → (s.owner ≡ joining) × (s.thread ≢ over) × (s'' : LoopThread Task) × Step s s''
  unfolding Lost
  Lost-waits s (o, inl t) = (o, (λ e. cc), enter s, enters t)
  Lost-waits s (o, inr (inl t, q)) = (o, (λ e. cc), poll s, polls t q)
  Lost-waits s (o, inr (inr t, q)) = (o, (λ e. cc), _, rounds t (λ _ _. []) [])

  -- If the destructor calls `quit` before the thread has entered its loop, then `loop` takes that
  -- back: whatever the two threads do from then on, the owner waits in `join`, the thread has not
  -- come to its end, and goes on.
  pub quit-lost :
      (n : ℕ) (s s' : LoopThread Task)
      → s.owner ≡ quitting
      → s.thread ≡ published
      → Steps n (quit s) s'
      → (s'.owner ≡ joining) × (s'.thread ≢ over) × (s'' : LoopThread Task) × Step s' s''
  unfolding Lost quit
  quit-lost n s s' o t r = Lost-waits s' (Steps-Lost (refl, inl t) r)

  -- The loop knows of the quit, and how far the threads have come since.
  data Told (s : LoopThread Task) : Type 0 where
    waking :
        s.owner ≡ joining
        → s.thread ≡ polling
        → s.event_loop.quit ≡ true
        → s.event_loop.wakeups ≢ 0
        → Told s
    looping : s.owner ≡ joining → s.thread ≡ in_loop → s.event_loop.quit ≡ true → Told s
    leaving : s.owner ≡ joining → s.thread ≡ left → Told s
    ended : s.owner ≡ joining → s.thread ≡ over → Told s
    done : s.owner ≡ gone → s.thread ≡ over → Told s
