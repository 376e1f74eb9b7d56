-- ===== src/Rpc/Config/Tests.antt =====
-- Runs of mprpc-main/src/mprpcconfig.cc.
use mprpc_main.Common.{◌≡◌, arith, [], ◌∷◌, some, codes, List}
use mprpc_main.Rpc.Config.{load, load_config_file}
use mprpc_main.Rpc.Config.File.{Entry, IsEntry, print, first_value, or_nothing, load-print}

abbrev ip_line : Entry
ip_line = record {
  key = codes "ip";
  value = codes "::1";
  before_key = 1;
  behind_key = 0;
  before_value = 2;
  behind_value = 1;
}

ip_line-IsEntry : IsEntry ip_line
ip_line-IsEntry = record {
  key_tight = omega arith;
  key_plain = omega arith;
  key_unequal = omega arith;
  key_line = omega arith;
  value_tight = omega arith;
  value_line = omega arith;
}

abbrev lines : List Entry
lines = ip_line ∷ ip_line ∷ []

load-print_example :
    load (codes "ip") (load_config_file (some (print lines)) [])
    ≡ or_nothing (first_value (codes "ip") lines)
load-print_example = load-print lines (codes "ip") (ip_line-IsEntry, (ip_line-IsEntry, tt))
