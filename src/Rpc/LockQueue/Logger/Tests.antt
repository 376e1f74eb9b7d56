-- ===== src/Rpc/LockQueue/Logger/Tests.antt =====
-- Runs of mprpc-main/src/logger.cc.
use mprpc_main.Common.{◌≡◌, refl, true, false, ◌⊎◌, some, List, [], ◌∷◌, ◌++◌, Bytes, codes}
use mprpc_main.Rpc.LockQueue.Logger.Writer
use mprpc_main.Rpc.LockQueue.Logger.Writer.{
  Writer, Walk, put, Mixes, Walk-written, take_message, write_out, hold, taken_from,
}
use mprpc_main.Rpc.LockQueue.{push, pop, close, new, pop_front, ready}
use mprpc_main.Rpc.LockQueue.Logger.{Logger, log, begun, logged, popped}

abbrev first : Bytes
first = codes "[info]a"

abbrev second : Bytes
second = codes "[error]b"

-- Two messages, the first one written, and the destructor has begun.
abbrev one_left : Logger
one_left = record {
  lock_queue = record { queue = second ∷ []; is_close = true };
  is_exit = true;
  writing = true;
  written = first ∷ [];
}

-- The first message is written, the second one is in the thread's hand, and a third one is queued.
abbrev between : Writer
between = record {
  lock_queue = record { queue = second ∷ []; is_close = false };
  is_exit = false;
  writing = true;
  hand = some second;
  written = first ∷ [];
  dropped = [];
}

Walk-between : Walk (first ∷ second ∷ second ∷ []) between
unfolding Writer.log take_message write_out new push pop close pop_front ready hold taken_from
Walk-between =
    Writer.logged
      (Writer.popped
        (put
          (Writer.popped
            (Writer.logged (Writer.logged Writer.begun first (λ h. cc)) second (λ h. cc)) refl refl
            _ refl)
          first refl true)
        refl refl _ refl)
      second (λ h. cc)

Walk-written_example :
    (past : List Bytes) × Mixes (first ∷ []) [] past
    × ((first ∷ second ∷ second ∷ []) ≡ past ++ (second ∷ second ∷ []))
    × ((true ≡ true) ⊎ ((first ∷ second ∷ second ∷ []) ≡ past))
Walk-written_example = Walk-written Walk-between
