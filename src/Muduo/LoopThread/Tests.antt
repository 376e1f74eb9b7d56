-- ===== src/Muduo/LoopThread/Tests.antt =====
-- Runs of mymuduo-main/src/EventLoopThread.cpp.
use mprpc_main.Common.{◌≡◌, ◌≢◌, refl}
use mprpc_main.Muduo.LoopThread.{
  over, joining, LoopThread, new, start_loop, publish, got_loop, enter, poll, destroy, quit, Step,
  starts, publishes, gets, enters, destroys, Steps, none, more,
}
use mprpc_main.Muduo.LoopThread.Quit.{quit-lost}

-- `startLoop` has returned, and the destructor runs.
abbrev early : LoopThread (Unit {0})
early = destroy (got_loop (publish (start_loop new)))

-- Two threads come to that state.
early-Steps : Steps 4 new early
unfolding new start_loop publish got_loop
early-Steps =
    more (more (more (more none (starts refl)) (publishes refl)) (gets refl refl)) (destroys refl)

abbrev lost : LoopThread (Unit {0})
lost = enter (quit early)

quit-lost_example :
    (lost.owner ≡ joining) × (lost.thread ≢ over) × (s'' : LoopThread (Unit {0})) × Step lost s''
unfolding new start_loop publish got_loop destroy quit
quit-lost_example = quit-lost 1 early lost refl refl (more none (enters refl))

abbrev late : LoopThread (Unit {0})
late = destroy (poll (enter (got_loop (publish (start_loop new)))))
