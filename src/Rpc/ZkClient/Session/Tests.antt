-- ===== src/Rpc/ZkClient/Session/Tests.antt =====
-- A session of mprpc-main/src/zkclient.cc that is connected twice.
use mprpc_main.Common.{◌≡◌, true, [], ◌∷◌, ◌>>=◌}
use mprpc_main.Rpc.ZkClient.Session.{Constants, start, event, scheduled, run}
use mprpc_main.Rpc.ZkClient.Session.Reconnect.{is_fault, reconnects, run-reconnects}

abbrev constants : Constants
constants = record { session_event = 1; connected_state = 3 }

run-reconnects_example :
    is_fault constants
      (start true >>= run constants (event 1 3 ∷ scheduled ∷ event 1 1 ∷ event 1 3 ∷ []))
    ≡ reconnects constants (event 1 3 ∷ scheduled ∷ event 1 1 ∷ event 1 3 ∷ [])
run-reconnects_example =
    run-reconnects constants (event 1 3 ∷ scheduled ∷ event 1 1 ∷ event 1 3 ∷ [])
