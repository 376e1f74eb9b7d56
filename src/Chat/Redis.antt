-- ===== src/Chat/Redis.antt =====
-- chat-main/src/server/Redis.cpp: the two connections to Redis. hiredis is a parameter: what its
-- calls return are arguments, and what is asked of it is recorded, in order.
pub mod Contexts
pub mod Answers
mod Tests
use mprpc_main.Common.{
  Bool, true, false, Option, none, some, List, [], ◌∷◌, ◌++◌, Bytes, codes, bytes_eq, if◌then◌else◌,
  c_str,
}

-- The two contexts are known by their names here.
pub data Name : Type 0 where
  publisher subscriber : Name

pub data Command : Type 0 where
  opened freed : Name → Command
  observed replied : Command
  published : Bytes → Bytes → Command
  subscribed unsubscribed : Bytes → Command

-- `true` is a context that is not null.
pub record Redis : Type 0 where
  pub publish_context : Bool
  pub subscribe_context : Bool
  pub commands : List Command

abbrev pub new : Redis
new = record { publish_context = false; subscribe_context = false; commands = [] }

unfoldable pub tell : Command → Redis → Redis
tell c r = record r { commands = r.commands ++ (c ∷ []) }

-- What `redisConnect` returns: no memory, a context with `err` set, or a good one.
pub data Connected : Type 0 where
  null broken good : Connected

-- The second half of `connect`; the thread of `observer_channel_message` is started at its end.
unfoldable pub connect_subscriber : Connected → Redis → Bool × Redis
unfolding tell
connect_subscriber null r = (false, tell (freed publisher) (record r { publish_context = false }))
connect_subscriber broken r = (
  false,
  tell (freed publisher)
      (tell (freed subscriber) (tell (opened subscriber) (record r { publish_context = false }))),
)
connect_subscriber good r =
    (true, tell observed (tell (opened subscriber) (record r { subscribe_context = true })))

-- `Redis::connect`.
unfoldable pub connect : Connected → Connected → Redis → Bool × Redis
unfolding connect_subscriber tell
connect null second r = (false, record r { publish_context = false })
connect broken second r =
    (false, tell (freed publisher) (tell (opened publisher) (record r { publish_context = false })))
connect good second r =
    connect_subscriber second (tell (opened publisher) (record r { publish_context = true }))

-- `publish`, `subscribe` and `unsubscribe`: what they ask for. No caller looks at what they return,
-- which is in Redis/Answers. A channel's name and a message are passed as C strings.
unfoldable pub publish : Bytes → Bytes → Redis → Redis
unfolding tell
publish channel message r =
    if r.publish_context then tell (published (c_str channel) (c_str message)) r else r

unfoldable pub subscribe : Bytes → Redis → Redis
unfolding tell
subscribe channel r = if r.subscribe_context then tell (subscribed (c_str channel)) r else r

unfoldable pub unsubscribe : Bytes → Redis → Redis
unfolding tell
unsubscribe channel r = if r.subscribe_context then tell (unsubscribed (c_str channel)) r else r

-- The observer's thread calls `redisGetReply` on the subscriber's context.
unfoldable pub get_reply : Redis → Redis
unfolding tell
get_reply r = tell replied r

free_publisher : Redis → Redis
unfolding tell
free_publisher r =
    if r.publish_context then tell (freed publisher) (record r { publish_context = false }) else r

free_subscriber : Redis → Redis
unfolding tell
free_subscriber r =
    if r.subscribe_context
    then tell (freed subscriber) (record r { subscribe_context = false })
    else r

-- `Redis::~Redis`.
pub destroy : Redis → Redis
unfolding free_publisher free_subscriber
destroy r = free_subscriber (free_publisher r)

-- A reply of `redisGetReply`: no array of three elements with a text first, or one.
pub data Received : Type 0 where
  other : Received
  triple : Bytes → Bytes → Bytes → Received

-- One round of `observer_channel_message`: what the handler is called with.
unfoldable pub notified : Received → Option (Bytes × Bytes)
notified other = none
notified (triple kind channel message) =
    if bytes_eq (c_str kind) (codes "message") then some (c_str channel, c_str message) else none
