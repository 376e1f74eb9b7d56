-- ===== src/Rpc/Controller.antt =====
-- mprpc-main/src/mprpccontroller.cc: the error state of one call. `StartCancel` and
-- `NotifyOnCancel` have empty bodies.
use mprpc_main.Common.{Bool, true, false, [], Bytes}

pub record Controller : Type 0 where
  pub failed : Bool
  pub err_text : Bytes

abbrev pub reset : Controller → Controller
reset c = record c { failed = false; err_text = [] }

-- The constructor calls `Reset`.
abbrev pub new : Controller
new = record { failed = false; err_text = [] }

abbrev pub set_failed : Bytes → Controller → Controller
set_failed reason c = record c { failed = true; err_text = reason }

abbrev pub error_text : Controller → Bytes
error_text c = c.err_text

abbrev pub is_canceled : Controller → Bool
is_canceled c = false
