-- ===== src/Chat/Redis/Contexts.antt =====
-- The contexts of a `Redis` of chat-main/src/server/Redis.cpp, from its constructor to its
-- destructor.
use mprpc_main.Common.{
  Bool, true, false, ◌≡◌, refl, Option, none, some, List, [], ◌∷◌, Bytes, if◌then◌else◌, ◌>>=◌,
}
use mprpc_main.Chat.Redis.{
  Redis, new, Connected, null, broken, good, connect, connect_subscriber, tell, publish, subscribe,
  unsubscribe, get_reply, publisher, subscriber, Command, opened, freed, observed, replied,
  published, subscribed, unsubscribed,
}

-- Which contexts are open, and whether the observer's thread was started.
pub record Life : Type 0 where
  pub publisher_open : Bool
  pub subscriber_open : Bool
  pub observing : Bool

abbrev pub unopened : Life
unopened = record { publisher_open = false; subscriber_open = false; observing = false }

-- One command to hiredis; `none` is a context that is opened over an open one, or is used or freed
-- while it is not open. Where no observer's thread was started, there is no call of its own.
pub live : Command → Life → Option Life
live (opened publisher) l =
    if l.publisher_open then none else some (record l { publisher_open = true })
live (opened subscriber) l =
    if l.subscriber_open then none else some (record l { subscriber_open = true })
live (freed publisher) l =
    if l.publisher_open then some (record l { publisher_open = false }) else none
live (freed subscriber) l =
    if l.subscriber_open then some (record l { subscriber_open = false }) else none
live observed l = if l.subscriber_open then some (record l { observing = true }) else none
live replied l = if l.observing then (if l.subscriber_open then some l else none) else some l
live (published channel message) l = if l.publisher_open then some l else none
live (subscribed channel) l = if l.subscriber_open then some l else none
live (unsubscribed channel) l = if l.subscriber_open then some l else none

pub live_all : List Command → Life → Option Life
unfolding live
live_all [] l = some l
live_all (c ∷ cs) l = live c l >>= λ l'. live_all cs l'

-- What the service calls between the constructor and the destructor, and the observer's thread.
pub data Call : Type 0 where
  publishing : Bytes → Bytes → Call
  subscribing unsubscribing : Bytes → Call
  replying : Call

pub perform : List Call → Redis → Redis
perform [] r = r
perform (publishing channel message ∷ cs) r = perform cs (publish channel message r)
perform (subscribing channel ∷ cs) r = perform cs (subscribe channel r)
perform (unsubscribing channel ∷ cs) r = perform cs (unsubscribe channel r)
perform (replying ∷ cs) r = perform cs (get_reply r)

abbrev life : Bool → Bool → Life
life both observing = record {
  publisher_open = both;
  subscriber_open = both;
  observing = observing;
}

-- The commands so far leave the contexts as the pointers say, both open or both not.
record At (both observing : Bool) (r : Redis) : Type 0 where
  publisher_at : r.publish_context ≡ both
  subscriber_at : r.subscribe_context ≡ both
  lived : live_all r.commands unopened ≡ some (life both observing)

connect-At : (first second : Connected) → let r = connect first second new in At r.0 r.0 r.1
unfolding connect connect_subscriber tell live_all live
connect-At null second = record { publisher_at = refl; subscriber_at = refl; lived = refl }
connect-At broken second = record { publisher_at = refl; subscriber_at = refl; lived = refl }
connect-At good null = record { publisher_at = refl; subscriber_at = refl; lived = refl }
connect-At good broken = record { publisher_at = refl; subscriber_at = refl; lived = refl }
connect-At good good = record { publisher_at = refl; subscriber_at = refl; lived = refl }

-- `connect` on a new object gives true just if the publisher's context is open.
pub connect-context :
    (first second : Connected) → let r = connect first second new in r.1.publish_context ≡ r.0
connect-context first second = (connect-At first second).publisher_at
