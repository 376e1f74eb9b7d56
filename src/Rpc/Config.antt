-- ===== src/Rpc/Config.antt =====
-- mprpc-main/src/mprpcconfig.cc: the configuration file, `key=value` on a line.
pub mod Lines
pub mod File
mod Tests
use mprpc_main.Common.{
  ℕ, ◌+◌, ◌-◌, Bool, Option, none, some, List, [], ◌∷◌, Bytes, length, ◌==◌, if◌then◌else◌, find,
  insert, bytes_key, find_char, find_first_not_of, find_last_not_of, substr, take, drop, lines_from,
}

-- `config_map_`.
abbrev pub ConfigMap : Type 0
ConfigMap = List (Bytes × Bytes)

-- `find_last_not_of` finds what `find_first_not_of` found, so its `npos` is met in no call.
trim_between : Option ℕ → Option ℕ → Bytes → Bytes
trim_between none _ s = []
trim_between (some first) none s = substr first 0 s
trim_between (some first) (some last) s = substr first (last - first + 1) s

pub trim : Bytes → Bytes
unfolding trim_between
trim s = trim_between (find_first_not_of b' ' s) (find_last_not_of b' ' s) s

-- The part of the loop behind the search for `=`.
pub load_pair : Bytes → Bytes → ConfigMap → ConfigMap
load_pair key value m = elim key [ [] ↦ m | c ∷ cs ↦ insert (c ∷ cs) value m ]

-- What follows the search for `=`.
load_at : Option ℕ → Bytes → ConfigMap → ConfigMap
load_at none line m = m
load_at (some idx) line m =
    load_pair (trim (substr 0 idx line)) (trim (substr (idx + 1) (length line - idx) line)) m

-- One round of the loop over the lines.
pub load_line : Bytes → ConfigMap → ConfigMap
unfolding load_at
load_line [] m = m
load_line (c ∷ cs) m = if c == b'#' then m else load_at (find_char b'=' (c ∷ cs)) (c ∷ cs) m

load_lines : List Bytes → ConfigMap → ConfigMap
load_lines [] m = m
load_lines (l ∷ ls) m = load_lines ls (load_line l m)

-- `LoadConfigFile`: `none` is a file that does not open.
pub load_config_file : Option Bytes → ConfigMap → ConfigMap
unfolding load_lines
load_config_file none m = m
load_config_file (some text) m = load_lines (lines_from [] text) m

or_empty : Option Bytes → Bytes
or_empty none = []
or_empty (some v) = v

-- `Load`: a missing key gives the empty string.
unfoldable pub load : Bytes → ConfigMap → Bytes
unfolding or_empty
load key m = or_empty (find key m)
