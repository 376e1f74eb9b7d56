-- ===== src/Muduo/Thread/Tests.antt =====
-- Runs of mymuduo-main/src/Thread.cpp.
use mprpc_main.Common.{◌≤◌, ◌≡◌, refl, false, [], ◌∷◌, codes, pos}
use mprpc_main.Common.Strings.Decimal.{to_string, decimal, decimal_from}
use mprpc_main.Muduo.Thread.{
  new, set_default_name, starts, joins, created, no_thread, after, destroy, destroy-safe,
}

name_lem : (new (pos 12) []).name ≡ codes "Thread12"
unfolding new set_default_name to_string decimal decimal_from
name_lem = refl

destroy-safe_example :
    ((destroy (after (starts no_thread ∷ starts created ∷ joins ∷ []) (new (pos 1) []))).joinable
      ≡ false)
    × ((after (starts no_thread ∷ starts created ∷ joins ∷ []) (new (pos 1) [])).runs ≤ 1)
destroy-safe_example = destroy-safe (pos 1) [] (starts no_thread ∷ starts created ∷ joins ∷ [])
