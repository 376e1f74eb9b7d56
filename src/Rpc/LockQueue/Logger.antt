-- ===== src/Rpc/LockQueue/Logger.antt =====
-- mprpc-main/src/logger.cc: `MprpcLogger`, with its producers and its writing thread as steps.
pub mod Writer
mod Tests
use mprpc_main.Common.{
  ℕ, zero, suc, ◌>>=◌, sym, ◌∙◌, ◌≡◌, ◌≢◌, sym, ap, ◌∙◌, Bool, true, false, not, Option, none, some,
  List, [], ◌∷◌, ◌++◌, Bytes, if◌then◌else◌, arith, append_assoc, Bool-cases, ◌⊎◌, inl, inr,
}
use mprpc_main.Rpc.LockQueue.{LockQueue, new, push, pop, close}

-- `written` is the text of the log files, a message to a line.
pub record Logger : Type 0 where
  pub lock_queue : LockQueue Bytes
  pub is_exit : Bool
  pub writing : Bool
  pub written : List Bytes

abbrev pub start : Logger
start = record { lock_queue = new; is_exit = false; writing = true; written = [] }

-- `Log`.
pub log : Bytes → Logger → Logger
log msg l = record l { lock_queue = push msg l.lock_queue }

-- The destructor, up to the join.
pub exit : Logger → Logger
exit l = record l { is_exit = true; lock_queue = close l.lock_queue }

-- What `FlushLogThread` does with what `Pop` returned.
write_message : Bytes → LockQueue Bytes → Logger → Logger
write_message [] q l = record l { lock_queue = q; writing = not l.is_exit }
write_message (c ∷ cs) q l = record l { lock_queue = q; written = l.written ++ ((c ∷ cs) ∷ []) }

popped : Option (Bytes × LockQueue Bytes) → Logger → Option Logger
unfolding write_message
popped none l = none
popped (some (msg, q)) l = some (write_message msg q l)

-- One round of `FlushLogThread`, with a file that opens; the message is written behind `Pop`, outside
-- the mutex, and Logger/Writer has these two steps apart. `none` while `Pop` waits, or after the thread has ended.
pub flush : Logger → Option Logger
unfolding popped
flush l = if l.writing then popped (pop [] l.lock_queue) l else none

-- The states that the logger comes to, with the messages that `Push` has taken, in order. All
-- messages begin with a level in brackets, so none is empty.
pub data Reach : List Bytes → Logger → Type 0 where
  begun : Reach [] start
  logged :
      {taken : List Bytes} {l : Logger}
      → Reach taken l
      → (msg : Bytes) → msg ≢ []
      → Reach (if l.lock_queue.is_close then taken else taken ++ (msg ∷ [])) (log msg l)
  flushed :
      {taken : List Bytes} {l : Logger}
      → Reach taken l
      → (l' : Logger) → flush l ≡ some l'
      → Reach taken l'
  exited : {taken : List Bytes} {l : Logger} → Reach taken l → Reach taken (exit l)

abbrev pub NoneEmpty : List Bytes → Type 0
NoneEmpty [] = Unit {0}
NoneEmpty (m ∷ ms) = (m ≢ []) × NoneEmpty ms

record Keeps (taken : List Bytes) (l : Logger) : Type 0 where
  all : taken ≡ l.written ++ l.lock_queue.queue
  solid : NoneEmpty l.lock_queue.queue
  ends : (l.writing ≡ true) ⊎ ((l.lock_queue.queue ≡ []) × (l.lock_queue.is_close ≡ true))
  shuts : l.is_exit ≡ l.lock_queue.is_close

NoneEmpty-append :
    (ms : List Bytes) (m : Bytes) → NoneEmpty ms → m ≢ [] → NoneEmpty (ms ++ (m ∷ []))
NoneEmpty-append [] m h k = (k, tt)
NoneEmpty-append (x ∷ ms) m h k = (h.0, NoneEmpty-append ms m h.1 k)

log-Keeps :
    (taken : List Bytes) (l : Logger) (msg : Bytes)
    → msg ≢ []
    → Keeps taken l
    → Keeps (if l.lock_queue.is_close then taken else taken ++ (msg ∷ [])) (log msg l)
unfolding log push
log-Keeps taken l msg h k = ground (
  arith,
  append_assoc l.written l.lock_queue.queue (msg ∷ []),
  NoneEmpty-append l.lock_queue.queue msg,
)

exit-Keeps : (taken : List Bytes) (l : Logger) → Keeps taken l → Keeps taken (exit l)
unfolding exit close
exit-Keeps taken l k = ground arith

-- So many rounds of the writing thread.
pub flushes : ℕ → Logger → Option Logger
flushes zero l = some l
flushes (suc n) l = flush l >>= λ l'. flushes n l'
