-- ===== src/Rpc/Start/Caller.antt =====
-- mprpc-main/example/caller/main.cc: one call of `Login`, and what is printed of it.
use mprpc_main.Common.{
  ℕ, Bool, true, false, ◌==◌, Option, some, List, [], ◌++◌, Bytes, codes, if◌then◌else◌, ◌>>=◌,
}
use mprpc_main.Rpc.Config.{ConfigMap}
use mprpc_main.Rpc.Controller.{Controller, error_text}
use mprpc_main.Rpc.UserService.{Result}
use mprpc_main.Rpc.Start.{Returned, init}

bool_text : Bool → Bytes
bool_text true = codes "1"
bool_text false = codes "0"

-- The line that is printed, by what the stub's `Login` has left.
pub report : Controller → Result → Bytes
unfolding bool_text
report controller response =
    if controller.failed
    then codes "rpc login failed: " ++ error_text controller
    else if response.errcode == 0
    then codes "rpc login response success: " ++ bool_text response.success
    else codes "rpc login response error: " ++ response.errmsg

-- `main`: `login` is the call by the generated stub, with a name and a password. `none` is an exit.
pub main :
    (Bytes → Option Bytes)
    → ℕ
    → List Returned
    → (ConfigMap → Bytes → Bytes → Controller × Result)
    → Option Bytes
main files argc cs login = do
  m ← init files argc cs []
  let r = login m (codes "zhang san") (codes "123456")
  some (report r.0 r.1)
