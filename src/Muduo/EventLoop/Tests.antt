-- ===== src/Muduo/EventLoop/Tests.antt =====
-- Runs of mymuduo-main/src/EventLoop.cpp.
use mprpc_main.Common.{ℕ, zero, suc, ◌≡◌, Bool, true, false, List, [], ◌∷◌, ◌++◌}
use mprpc_main.Muduo.EventLoop.{EventLoop, do_pending_functions}
use mprpc_main.Muduo.EventLoop.Pending.{do_pending_functions-ran, all_queued}

-- Function 2 queues function 9, and another thread function 7 meanwhile.
abbrev queues_nine : List ℕ → ℕ → List (Bool × ℕ)
queues_nine ran (suc (suc zero)) = (false, 7) ∷ (true, 9) ∷ []
queues_nine ran _ = []

abbrev three_waiting : EventLoop ℕ
three_waiting = record {
  pending = 1 ∷ 2 ∷ 3 ∷ [];
  calling_pending = false;
  wakeups = 0;
  looping = true;
  quit = false;
  ran = [];
}

do_pending_functions-ran_example :
    ((do_pending_functions queues_nine three_waiting).ran
      ≡ three_waiting.ran ++ three_waiting.pending)
    × ((do_pending_functions queues_nine three_waiting).pending
        ≡ all_queued queues_nine three_waiting.ran three_waiting.pending)
    × ((do_pending_functions queues_nine three_waiting).calling_pending ≡ false)
do_pending_functions-ran_example = do_pending_functions-ran queues_nine three_waiting
