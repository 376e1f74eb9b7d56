-- ===== src/Rpc/UserService.antt =====
-- mprpc-main/example/callee/userservice.cc: the example service, less its log lines.
use mprpc_main.Common.{ℕ, Bool, true, ◌&&◌, Bytes, [], bytes_eq, codes}

pub record Result : Type 0 where
  pub errcode : ℕ
  pub errmsg : Bytes
  pub success : Bool

-- `UserService::Login(name, pwd)`.
pub check_login : Bytes → Bytes → Bool
check_login name pwd = bytes_eq name (codes "zhang san") && bytes_eq pwd (codes "123456")

pub check_register : ℕ → Bytes → Bytes → Bool
check_register id name pwd = true

-- The responses that the service's methods fill in before they run `done`.
pub login : Bytes → Bytes → Result
unfolding check_login
login name pwd = record { errcode = 0; errmsg = []; success = check_login name pwd }

pub register : ℕ → Bytes → Bytes → Result
unfolding check_register
register id name pwd = record { errcode = 0; errmsg = []; success = check_register id name pwd }
