-- ===== src/Chat/Service/Observer.antt =====
-- `observer_channel_message` of chat-main/src/server/Redis.cpp with the handler that
-- chat-main/src/server/ChatService.cpp sets: messages that come from another server.
mod Tests
use mprpc_main.Common.{
  ℕ, ◌≡◌, ◌≢◌, refl, sym, ap, ◌∙◌, true, false, Option, none, some, List, [], ◌∷◌, ◌++◌, Bytes,
  codes, append-nil, append_assoc, bytes_eq, bytes_eq_refl, c_str, Lacks, arith, ℤ, pos, negsuc,
  int_key, find, if◌then◌else◌,
}
use mprpc_main.Common.Strings.Decimal.{to_string, IsInt, decimal}
use mprpc_main.Common.Strings.Cut.{c_str-append, c_str-Lacks, c_str-c_str, decimal-Lacks}
use mprpc_main.Chat.Db.{Run, ok, ◌>>=◌, MySql}
use mprpc_main.Chat.Models.{User}
use mprpc_main.Chat.Models.UserModel
use mprpc_main.Chat.Json.{JsonLibrary}
use mprpc_main.Chat.Redis
use mprpc_main.Chat.Redis.{
  Redis, Received, other, triple, notified, Command, published, publish, tell,
}
use mprpc_main.Chat.Service.{
  ChatService, user_channel, online, one_chat, forward, route, handle_redis_subscribe_message, send,
}
use mprpc_main.Chat.Service.Routing.{handle_redis_subscribe_message-user_channel}

module _ (mysql : MySql) (atoi : Bytes → ℤ) (lib : JsonLibrary) where
  open lib use {Json}

  handle : Option (Bytes × Bytes) → ChatService mysql → Run (ChatService mysql)
  handle none w = ok w
  handle (some (channel, msg)) w = handle_redis_subscribe_message mysql atoi lib channel msg w

  -- The loop, with the replies that `redisGetReply` gives until it fails; the handler is set.
  pub observe : List Received → ChatService mysql → Run (ChatService mysql)
  unfolding handle
  observe [] w = ok w
  observe (r ∷ rs) w = handle (notified r) w >>= λ w'. observe rs w'

  -- What the replies should send to the connections of this table: a message on the channel of one
  -- of its users goes to that user's connection, and what is no message goes nowhere.
  pub data Sends (table : List (ℤ × ℕ)) : List Received → List (ℕ × Bytes) → Type 0 where
    finished : Sends table [] []
    skipped :
        {r : Received} {rs : List Received} {out : List (ℕ × Bytes)}
        → notified r ≡ none
        → Sends table rs out
        → Sends table (r ∷ rs) out
    passed :
        {rs : List Received} {out : List (ℕ × Bytes)} (id : ℤ) (conn : ℕ) (msg : Bytes)
        → IsInt id
        → find id table ≡ some conn
        → Sends table rs out
        → Sends table
            (triple (codes "message") (user_channel id) msg ∷ rs)
            ((conn, c_str msg) ∷ out)

  c_str-of : (s : Bytes) → Lacks 0 s → c_str s ≡ s
  c_str-of s l =
      ap c_str (sym (append-nil s)) ∙ c_str-append s [] l ∙ (unfold c_str in append-nil s)

  to_string-Lacks : (id : ℤ) → Lacks 0 (to_string id)
  unfolding to_string
  to_string-Lacks (pos n) = decimal-Lacks n
  to_string-Lacks (negsuc n) = ((λ e. omega arith), decimal-Lacks _)

  c_str-user_channel : (id : ℤ) → c_str (user_channel id) ≡ user_channel id
  c_str-user_channel id =
      c_str-append (codes "chat:user:") (to_string id)
        (c_str-Lacks (codes "chat:user:") (unfold c_str in refl))
      ∙ ap (λ t. codes "chat:user:" ++ t) (c_str-of (to_string id) (to_string-Lacks id))

  notified-message :
      (id : ℤ) (msg : Bytes)
      → notified (triple (codes "message") (user_channel id) msg)
        ≡ some (user_channel id, c_str msg)
  unfolding notified c_str
  notified-message id msg =
      ap (λ b. if b then some (c_str (user_channel id), c_str msg) else none)
        (bytes_eq_refl (codes "message"))
      ∙ ap (λ c. some (c, c_str msg)) (c_str-user_channel id)

  message-sent :
      (id : ℤ) (conn : ℕ) (msg : Bytes) (w : ChatService mysql)
      → IsInt id
      → find id w.user_conn_map ≡ some conn
      → handle (notified (triple (codes "message") (user_channel id) msg)) w
        ≡ ok (record w { sent = w.sent ++ ((conn, c_str msg) ∷ []) })
  unfolding handle
  message-sent id conn msg w i f =
      ap (λ o. handle o w) (notified-message id msg)
      ∙ handle_redis_subscribe_message-user_channel mysql atoi lib id (c_str msg) w i
      ∙ rw f refl

  observe-from :
      (table : List (ℤ × ℕ)) (rs : List Received) (out : List (ℕ × Bytes))
      → Sends table rs out
      → (w : ChatService mysql) → w.user_conn_map ≡ table
      → observe rs w ≡ ok (record w { sent = w.sent ++ out })
  unfolding observe handle
  observe-from table rs out finished w e =
      ap (λ s. ok (record w { sent = s })) (sym (append-nil w.sent))
  observe-from table rs out (skipped {rs = rs'} none_of s) w e =
      ap (λ o. handle o w >>= λ w'. observe rs' w') none_of
      ∙ passing rs' (observe-from table rs' out s w e)
    where
      passing :
          (rs' : List Received)
          → observe rs' w ≡ ok (record w { sent = w.sent ++ out })
          → (handle none w >>= λ w'. observe rs' w') ≡ ok (record w { sent = w.sent ++ out })
      passing rs' h = h
  observe-from table rs out (passed {rs = rs'} {out = out'} id conn msg i f s) w e =
      ap (λ o. o >>= λ w'. observe rs' w') (message-sent id conn msg w i (ap (find id) e ∙ f))
      ∙ observe-from table rs' out' s (record w { sent = w.sent ++ ((conn, c_str msg) ∷ []) }) e
      ∙ ap (λ t. ok (record w { sent = t })) (append_assoc w.sent ((conn, c_str msg) ∷ []) out')

  -- The thread that observes Redis, while the table of the users' connections stays as it is: after
  -- replies of which every message is on the channel of a user who is connected here, in between
  -- any that are no messages, it has sent each message, as a C string, to the connection of its
  -- user, in the order of the replies, and nothing else has changed.
  pub observe-Sends :
      (rs : List Received) (out : List (ℕ × Bytes)) (w : ChatService mysql)
      → Sends w.user_conn_map rs out
      → observe rs w ≡ ok (record w { sent = w.sent ++ out })
  observe-Sends rs out w s = observe-from w.user_conn_map rs out s w refl

  -- What Redis hands to those who have subscribed to a channel, for a command.
  abbrev pub hands_on : Command → List Received
  hands_on (published channel msg) = triple (codes "message") channel msg ∷ []
  hands_on _ = []

  publish-commands :
      (id : ℤ) (msg : Bytes) (r : Redis)
      → r.publish_context ≡ true
      → (publish (user_channel id) msg r).commands
        ≡ r.commands ++ (published (user_channel id) (c_str msg) ∷ [])
  unfolding publish tell
  publish-commands id msg r e =
      let c = published (c_str (user_channel id)) (c_str msg) in
      ap (λ b. (if b then tell c r else r).commands) e
      ∙ ap (λ channel. r.commands ++ (published channel (c_str msg) ∷ [])) (c_str-user_channel id)

  -- `oneChat` on one server, whose context for publishing is open, to a user that the data base
  -- says is online but who has no connection there: it publishes one message, and when Redis hands
  -- this message to another server, where that user has a connection, that server sends the dumped
  -- object, as a C string, on just that connection.
  pub one_chat-crosses :
      (conn peer : ℕ) (js : Json) (toid : ℤ) (msg : Bytes) (here there : ChatService mysql)
      (u : User) (s : mysql.Server)
      → lib.get_int (codes "toid") js ≡ some toid
      → IsInt toid
      → UserModel.query mysql atoi toid here.server ≡ ok (u, s)
      → bytes_eq u.state online ≡ true
      → find toid here.user_conn_map ≡ none
      → lib.dump js ≡ some msg
      → here.redis.publish_context ≡ true
      → find toid there.user_conn_map ≡ some peer
      → (here' : ChatService mysql) × (one_chat mysql atoi lib conn js here ≡ ok here')
        × (here'.redis.commands
            ≡ here.redis.commands ++ (published (user_channel toid) (c_str msg) ∷ []))
        × (observe (hands_on (published (user_channel toid) (c_str msg))) there
            ≡ ok (record there { sent = there.sent ++ ((peer, c_str msg) ∷ []) }))
  unfolding one_chat forward
  one_chat-crosses conn peer js toid msg here there u s t i q on away d open_context f = (
    record here { server = s; redis = publish (user_channel toid) msg here.redis },
    rw (t, q, on, away, route, d) refl,
    publish-commands toid msg here.redis open_context,
    observe-Sends (hands_on (published (user_channel toid) (c_str msg)))
          ((peer, c_str (c_str msg)) ∷ []) there (passed toid peer (c_str msg) i f finished)
        ∙ ap (λ m. ok (record there { sent = there.sent ++ ((peer, m) ∷ []) })) (c_str-c_str msg),
  )
