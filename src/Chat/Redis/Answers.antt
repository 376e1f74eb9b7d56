-- ===== src/Chat/Redis/Answers.antt =====
-- chat-main/src/server/Redis.cpp: what `publish`, `subscribe` and `unsubscribe` return.
use mprpc_main.Common.{Bool, true, false, ◌&&◌, Option, none, some, List, [], ◌∷◌, if◌then◌else◌}
use mprpc_main.Chat.Redis.{Redis}

-- `publish`, by whether `redisCommand` gave a reply.
pub publish_answer : Bool → Redis → Bool
publish_answer replied r = if r.publish_context then replied else false

-- What `redisBufferWrite` does: an error, a part of the buffer, or the rest of it, with `done`.
pub data Written : Type 0 where
  failed partly wholly : Written

-- The loop of `subscribe` and `unsubscribe`: `none` says that these answers do not end it.
pub write_all : List Written → Option Bool
write_all [] = none
write_all (failed ∷ ws) = some false
write_all (partly ∷ ws) = write_all ws
write_all (wholly ∷ ws) = some true

-- `subscribe`, by whether `redisAppendCommand` succeeded.
pub subscribe_answer : Bool → List Written → Redis → Option Bool
unfolding write_all
subscribe_answer appended ws r =
    if r.subscribe_context && appended then write_all ws else some false

-- `unsubscribe`, likewise.
pub unsubscribe_answer : Bool → List Written → Redis → Option Bool
unfolding write_all
unsubscribe_answer appended ws r =
    if r.subscribe_context && appended then write_all ws else some false
