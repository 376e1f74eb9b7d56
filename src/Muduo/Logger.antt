-- ===== src/Muduo/Logger.antt =====
-- mymuduo-main/include/mymuduo/Logger.h and mymuduo-main/src/Logger.cpp: the log of the network
-- library. The text that `snprintf` makes of the caller's format is an argument.
use mprpc_main.Common.{Option, none, some, List, [], ◌∷◌, ◌++◌, Bytes, codes, c_str, take}

pub data LogLevel : Type 0 where
  info erorr fatal dbug : LogLevel

-- `out` is what was written on the standard output. The constructor sets no level: `none`.
pub record Logger : Type 0 where
  pub loglevel : Option LogLevel
  pub out : List Bytes

pub getinstance : Logger
getinstance = record { loglevel = none; out = [] }

pub set_level : LogLevel → Logger → Logger
set_level level l = record l { loglevel = some level }

tag : Option LogLevel → Bytes
tag (some info) = codes "[INFO]"
tag (some erorr) = codes "[ERORR]"
tag (some fatal) = codes "[FATAL]"
tag (some dbug) = codes "[DBUG]"
tag none = []

-- `log`, with the end of the line.
pub log : Bytes → Logger → Logger
unfolding tag
log msg l = record l { out = l.out ++ ((tag l.loglevel ++ (msg ++ (10 ∷ []))) ∷ []) }

-- `buf`, of 1024 bytes with a zero at the end.
pub buf : Bytes → Bytes
buf text = c_str (take 1023 text)

-- `LOG_INFO`, `LOG_ERORR`, `LOG_FATAL` and `LOG_DBUG`. All only write a line.
pub log_info : Bytes → Logger → Logger
unfolding log set_level buf
log_info text l = log (buf text) (set_level info l)

pub log_erorr : Bytes → Logger → Logger
unfolding log set_level buf
log_erorr text l = log (buf text) (set_level erorr l)

pub log_fatal : Bytes → Logger → Logger
unfolding log set_level buf
log_fatal text l = log (buf text) (set_level fatal l)

pub log_dbug : Bytes → Logger → Logger
unfolding log set_level buf
log_dbug text l = log (buf text) (set_level dbug l)
