-- ===== src/Muduo/EventLoop/Wakeup.antt =====
-- mymuduo-main/src/EventLoop.cpp: the channel of `wakeupFd_`, from the constructor to the
-- destructor.
use mprpc_main.Common.{ℕ, List, [], ◌∷◌, ◌++◌, codes, ℤ, pos, negsuc}
use mprpc_main.Common.Strings.Decimal.{to_string}
use mprpc_main.Muduo.Logger
use mprpc_main.Muduo.Logger.{Logger}
use mprpc_main.Muduo.Channel.{Watch, able_read, disable_all, remove}
use mprpc_main.Muduo.Channel.Interest.{created}

-- The constructor: the channel is enabled for reading on the poller of the new loop.
pub wakeup_channel : ℕ → ℕ → Watch
wakeup_channel self wakeup_fd = able_read (created self wakeup_fd)

-- The destructor: the channel is taken off the poller, and the descriptor closed if there is one.
pub close_wakeup : ℤ → Watch → Watch × List ℕ
close_wakeup (pos fd) w = (remove (disable_all w), fd ∷ [])
close_wakeup (negsuc n) w = (remove (disable_all w), [])

-- `creatweakfd`: what `eventfd` gave is returned also where it is -1, and `errno` is logged then.
pub creatweakfd : ℤ → ℤ → Logger → ℤ × Logger
creatweakfd (pos wakefd) errno l = (pos wakefd, l)
creatweakfd (negsuc n) errno l =
    (negsuc n, Logger.log_fatal (codes "eventfd create error:" ++ (to_string errno ++ (10 ∷ []))) l)
