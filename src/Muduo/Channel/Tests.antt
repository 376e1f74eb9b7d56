-- ===== src/Muduo/Channel/Tests.antt =====
-- Runs of mymuduo-main/src/Channel.cpp and EPollPoller.cpp.
use mprpc_main.Common.{◌≡◌, refl, [], ◌∷◌}
use mprpc_main.Muduo.Channel.{
  Watch, handle_event_guard, on_close, on_error, on_read, has_bits, call_if,
}
use mprpc_main.Muduo.Channel.Interest.{
  InStep, run, created, run-created-InStep, able_reads, able_writes, disable_writes, disable_alls,
  removes,
}

run-created-InStep_example : InStep (
    run
      (able_reads ∷ able_writes ∷ disable_writes ∷ disable_alls ∷ able_reads ∷ removes ∷ [])
      (created 7 5))
run-created-InStep_example =
    run-created-InStep
      (able_reads ∷ able_writes ∷ disable_writes ∷ disable_alls ∷ able_reads ∷ removes ∷ []) 7 5

abbrev fresh : Watch
fresh = created 7 5

-- A hang-up with data still to read calls the read callback only.
hang_up_with_data : handle_event_guard 17 ≡ on_read ∷ []
unfolding handle_event_guard has_bits call_if
hang_up_with_data = refl

hang_up : handle_event_guard 24 ≡ on_close ∷ on_error ∷ []
unfolding handle_event_guard has_bits call_if
hang_up = refl
