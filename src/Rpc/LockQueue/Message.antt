-- ===== src/Rpc/LockQueue/Message.antt =====
-- mprpc-main/src/include/logger.h: the macros `MPRPC_LOG_INFO` and `MPRPC_LOG_ERR`; and the name of
-- the log file, of logger.cc. The text that `snprintf` makes of the caller's format is an argument,
-- and so is the date; nothing reads the level that the macros store.
mod Tests
use mprpc_main.Common.{
  ℕ, zero, suc, ◌+◌, ◌-◌, ◌≤◌, ◌<◌, ◌≡◌, ◌≢◌, refl, sym, ap, subst, ◌∙◌, arith, Bool, true, false,
  List, [], ◌∷◌, ◌++◌, Bytes, codes, length, take, length-take, ltb, if◌then◌else◌, c_str, Lacks,
  Bool-cases, inl, inr,
}
use mprpc_main.Common.Strings.Decimal.{decimal}
use mprpc_main.Common.Strings.Cut.{
  c_str-take, c_str-append, c_str-Lacks, c_str-c_str, take-append-take, append-Lacks, decimal-Lacks,
}
use mprpc_main.Rpc.LockQueue.Logger.{Logger, log, Reach, logged}

pub data MprpcLogLevel : Type 0 where
  mprpc_info mprpc_error : MprpcLogLevel

-- `std::tm`, of a date after 1900.
pub record Tm : Type 0 where
  pub tm_year : ℕ
  pub tm_mon : ℕ
  pub tm_mday : ℕ
  pub tm_hour : ℕ
  pub tm_min : ℕ
  pub tm_sec : ℕ

-- `snprintf` into a zeroed array, which is then read as a C string.
snprintf : ℕ → Bytes → Bytes
snprintf size text = c_str (take (size - 1) text)

-- `%02d`.
two_digits : ℕ → Bytes
two_digits n = if ltb n 10 then b'0' ∷ decimal n else decimal n

tag : MprpcLogLevel → Bytes
tag mprpc_info = codes "[INFO] "
tag mprpc_error = codes "[ERROR] "

date : Tm → Bytes
unfolding two_digits
date tm =
    decimal (tm.tm_year + 1900)
    ++ codes "-"
    ++ two_digits (tm.tm_mon + 1)
    ++ codes "-"
    ++ two_digits tm.tm_mday

time : Tm → Bytes
unfolding two_digits
time tm =
    two_digits tm.tm_hour ++ codes ":" ++ two_digits tm.tm_min ++ codes ":" ++ two_digits tm.tm_sec

pub header : MprpcLogLevel → Tm → Bytes
unfolding tag date time
header level tm = tag level ++ (date tm ++ (codes " " ++ (time tm ++ codes " : ")))

-- `msg_buf`.
pub message : MprpcLogLevel → Tm → Bytes → Bytes
unfolding snprintf header
message level tm text =
    let log_buf = snprintf 1024 text in snprintf 1024 (header level tm ++ log_buf)

-- The macros.
pub log_message : MprpcLogLevel → Tm → Bytes → Logger → Logger
unfolding message
log_message level tm text l = log (message level tm text) l

-- `file_name`, of `FlushLogThread`.
pub file_name : Tm → Bytes
unfolding snprintf date
file_name tm = snprintf 128 (date tm ++ codes "-log.txt")

two_digits-Lacks : (n : ℕ) → Lacks 0 (two_digits n)
unfolding two_digits
two_digits-Lacks n = elim (Bool-cases (ltb n 10)) [
  | inl small ↦ rw small ((λ e. omega arith), decimal-Lacks n)
  | inr big ↦ rw big (decimal-Lacks n)
]

tag-Lacks : (level : MprpcLogLevel) → Lacks 0 (tag level)
unfolding tag c_str
tag-Lacks mprpc_info = c_str-Lacks (codes "[INFO] ") refl
tag-Lacks mprpc_error = c_str-Lacks (codes "[ERROR] ") refl

-- Two texts with one character between them.
joined-Lacks : (s t : Bytes) (c : ℕ) → Lacks 0 s → Lacks 0 t → Lacks 0 (s ++ (suc c ∷ []) ++ t)
joined-Lacks s t c ls lt =
    append-Lacks 0 (s ++ (suc c ∷ [])) t (append-Lacks 0 s (suc c ∷ []) ls ((λ e. omega arith), tt))
      lt

date-Lacks : (tm : Tm) → Lacks 0 (date tm)
unfolding date
date-Lacks tm =
    joined-Lacks _ _ 44
      (joined-Lacks _ _ 44 (decimal-Lacks (tm.tm_year + 1900)) (two_digits-Lacks (tm.tm_mon + 1)))
      (two_digits-Lacks tm.tm_mday)

time-Lacks : (tm : Tm) → Lacks 0 (time tm)
unfolding time
time-Lacks tm =
    joined-Lacks _ _ 57
      (joined-Lacks _ _ 57 (two_digits-Lacks tm.tm_hour) (two_digits-Lacks tm.tm_min))
      (two_digits-Lacks tm.tm_sec)

header-Lacks : (level : MprpcLogLevel) (tm : Tm) → Lacks 0 (header level tm)
unfolding header c_str
header-Lacks level tm = append-Lacks 0 (tag level) _ (tag-Lacks level) (
    append-Lacks 0 (date tm) _ (date-Lacks tm) (
      append-Lacks 0 (codes " ") _ (c_str-Lacks (codes " ") refl)
        (append-Lacks 0 (time tm) (codes " : ") (time-Lacks tm) (c_str-Lacks (codes " : ") refl))))

-- The two buffers cut once: the message is the head of the whole line.
message-take :
    (level : MprpcLogLevel) (tm : Tm) (text : Bytes)
    → message level tm text ≡ take 1023 (header level tm ++ c_str text)
unfolding message snprintf
message-take level tm text =
    let h = header level tm in
    c_str-take 1023 (h ++ c_str (take 1023 text))
    ∙ ap (take 1023) (c_str-append h (c_str (take 1023 text)) (header-Lacks level tm))
    ∙ ap (λ t. take 1023 (h ++ t)) (c_str-c_str (take 1023 text) ∙ c_str-take 1023 text)
    ∙ take-append-take 1023 1023 h (c_str text) (omega arith)

message-nonempty : (level : MprpcLogLevel) (tm : Tm) (text : Bytes) → message level tm text ≢ []
unfolding header tag
message-nonempty mprpc_info tm text e = let f = sym (message-take mprpc_info tm text) ∙ e in cc
message-nonempty mprpc_error tm text e = let f = sym (message-take mprpc_error tm text) ∙ e in cc

-- What a log macro queues, whatever the text and the date: the line with its level, its date and
-- the text up to a first zero byte, cut to 1023 bytes, although it went through two buffers; it is
-- not empty, so that the writing thread does not take it for the end, and the logger comes to a
-- state that its threads may come to.
pub log_message-bounded :
    (level : MprpcLogLevel) (tm : Tm) (text : Bytes) (taken : List Bytes) (l : Logger)
    → Reach taken l
    → (message level tm text ≡ take 1023 (header level tm ++ c_str text))
      × (length (message level tm text) ≤ 1023)
      × (message level tm text ≢ [])
      × Reach
          (if l.lock_queue.is_close then taken else taken ++ (message level tm text ∷ []))
          (log_message level tm text l)
unfolding log_message
log_message-bounded level tm text taken l r =
    let e = message-take level tm text in
    let full = header level tm ++ c_str text in
    let ne = message-nonempty level tm text in
    (
      e,
      subst (λ s. length s ≤ 1023) (sym e) (omega (arith, length-take 1023 full)),
      ne,
      logged r (message level tm text) ne,
    )
