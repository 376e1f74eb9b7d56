-- ===== src/Rpc/LockQueue.antt =====
-- mprpc-main/src/include/lockqueue.h and logger.cc: the queue between the threads that log and the
-- thread that writes. An operation runs under the mutex, so it is one step.
pub mod Logger
pub mod Message
use mprpc_main.Common.{
  Bool, true, false, ◌||◌, not, Option, none, some, List, [], ◌∷◌, ◌++◌, if◌then◌else◌,
}

module _ {ℓ} (A : Type ℓ) where
  pub record LockQueue : Type ℓ where
    pub queue : List A
    pub is_close : Bool

module _ {ℓ} {A : Type ℓ} where
  unfoldable pub new : LockQueue A
  new = record { queue = []; is_close = false }

  unfoldable pub push : A → LockQueue A → LockQueue A
  push x q = if q.is_close then q else record q { queue = q.queue ++ (x ∷ []) }

  pop_front : List A → A → LockQueue A → A × LockQueue A
  pop_front [] empty q = (empty, q)
  pop_front (x ∷ xs) empty q = (x, record q { queue = xs })

  ready : List A → Bool → Bool
  ready [] closed = closed
  ready (x ∷ xs) closed = true

  -- `Pop`: `none` while the condition variable waits; `empty` is `T()`.
  unfoldable pub pop : A → LockQueue A → Option (A × LockQueue A)
  unfolding pop_front ready
  pop empty q = if ready q.queue q.is_close then some (pop_front q.queue empty q) else none

  unfoldable pub close : LockQueue A → LockQueue A
  close q = record q { is_close = true }
