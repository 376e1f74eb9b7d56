-- ===== src/Rpc/LockQueue/Message/Tests.antt =====
-- Runs of the macros of mprpc-main/src/include/logger.h.
use mprpc_main.Common.{
  ◌≤◌, ◌≡◌, ◌≢◌, refl, [], ◌∷◌, ◌++◌, codes, length, take, c_str, if◌then◌else◌,
}
use mprpc_main.Common.Strings.Decimal.{decimal, decimal_from}
use mprpc_main.Rpc.LockQueue.Logger.{Reach, begun, start}
use mprpc_main.Rpc.LockQueue.Message.{
  Tm, mprpc_error, message, header, log_message, log_message-bounded, date, time, tag, two_digits,
  snprintf, file_name,
}

abbrev noon : Tm
noon = record { tm_year = 125; tm_mon = 6; tm_mday = 9; tm_hour = 12; tm_min = 0; tm_sec = 3 }

message_lem : message mprpc_error noon (codes "no") ≡ codes "[ERROR] 2025-07-09 12:00:03 : no"
unfolding message header date time tag two_digits snprintf decimal decimal_from c_str
message_lem = refl

file_name_lem : file_name noon ≡ codes "2025-07-09-log.txt"
unfolding file_name date two_digits snprintf decimal decimal_from c_str
file_name_lem = refl

log_message-bounded_example :
    (message mprpc_error noon (codes "no")
      ≡ take 1023 (header mprpc_error noon ++ c_str (codes "no")))
    × (length (message mprpc_error noon (codes "no")) ≤ 1023)
    × (message mprpc_error noon (codes "no") ≢ [])
    × Reach
        (if start.lock_queue.is_close
          then []
          else [] ++ (message mprpc_error noon (codes "no") ∷ []))
        (log_message mprpc_error noon (codes "no") start)
log_message-bounded_example = log_message-bounded mprpc_error noon (codes "no") [] start begun
