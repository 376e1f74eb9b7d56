-- ===== src/Chat/Service/Routing.antt =====
-- By which way a message of one user comes to another.
use mprpc_main.Common.{
  ℕ, ◌≤◌, ◌≡◌, ◌≢◌, refl, ap, ◌∙◌, Bool, true, false, none, some, List, [], ◌∷◌, ◌++◌, Bytes,
  length, codes, bytes_eq, bytes_eq_refl, bytes_eq_iff, ℤ, int_key, find, inl, inr, Bool-cases,
  Option-cases, take-append, drop-append,
}
use mprpc_main.Common.Strings.Decimal.{to_string, IsInt, stoi-to_string}
use mprpc_main.Chat.Db
use mprpc_main.Chat.Db.{Run, ok, threw, overflowed, ◌>>=◌, or_throw, MySql}
use mprpc_main.Chat.Models.{User}
use mprpc_main.Chat.Models.UserModel
use mprpc_main.Chat.Models.UserModel.Bounds.{query-Returns}
use mprpc_main.Chat.Models.OfflineMsgModel
use mprpc_main.Chat.Models.OfflineMsgModel.Stored.{insert-Returns, insert-overflowed, Storable}
use mprpc_main.Chat.Redis
use mprpc_main.Chat.Json.{JsonLibrary}
use mprpc_main.Chat.Service.{
  ChatService, user_channel, online, call, send, send_json, store_offline, route, forward, one_chat,
  forward_all, handle_redis_subscribe_message, notify,
}

module _ (mysql : MySql) (atoi : Bytes → ℤ) (lib : JsonLibrary) where
  open lib use {Json}

  -- What became of one message: it is on the connection of a user that is online here; or Redis was
  -- asked, on the context for publishing, to publish just it on the channel of a user that is online
  -- elsewhere; or the table of offline messages has taken it. `untaken`: the data base refused it.
  pub data Routed (toid : ℤ) (msg : Bytes) (w w' : ChatService mysql) : Type 0 where
    direct :
        (u : User) (s : mysql.Server) (conn : ℕ)
        → UserModel.query mysql atoi toid w.server ≡ ok (u, s)
        → u.state ≡ online
        → find toid w.user_conn_map ≡ some conn
        → w' ≡ record w { server = s; sent = w.sent ++ ((conn, msg) ∷ []) }
        → Routed toid msg w w'
    relayed :
        (u : User) (s : mysql.Server)
        → UserModel.query mysql atoi toid w.server ≡ ok (u, s)
        → u.state ≡ online
        → find toid w.user_conn_map ≡ none
        → w.redis.publish_context ≡ true
        → w' ≡ record w {
          server = s;
          redis = record {
            publish_context = true;
            subscribe_context = w.redis.subscribe_context;
            commands =
                w.redis.commands
                ++ (Redis.published (Db.c_str (user_channel toid)) (Db.c_str msg) ∷ []);
          };
        }
        → Routed toid msg w w'
    stored :
        (u : User) (s s' : mysql.Server)
        → UserModel.query mysql atoi toid w.server ≡ ok (u, s)
        → u.state ≢ online
        → OfflineMsgModel.insert mysql atoi toid msg s ≡ ok (true, s')
        → w' ≡ record w { server = s' }
        → Routed toid msg w w'
    untaken :
        (u : User) (s s' : mysql.Server)
        → UserModel.query mysql atoi toid w.server ≡ ok (u, s)
        → u.state ≢ online
        → OfflineMsgModel.insert mysql atoi toid msg s ≡ ok (false, s')
        → w' ≡ record w { server = s' }
        → Routed toid msg w w'

  -- The context for publishing stays open.
  Routed-publish_context :
      {toid : ℤ} {msg : Bytes} {w w' : ChatService mysql}
      → Routed toid msg w w'
      → w.redis.publish_context ≡ true
      → w'.redis.publish_context ≡ true
  Routed-publish_context (direct u s conn q o f e) h = ap (λ v. v.redis.publish_context) e ∙ h
  Routed-publish_context (relayed u s q o f p e) h = ap (λ v. v.redis.publish_context) e
  Routed-publish_context (stored u s s' q o i e) h = ap (λ v. v.redis.publish_context) e ∙ h
  Routed-publish_context (untaken u s s' q o i e) h = ap (λ v. v.redis.publish_context) e ∙ h

  not_online : (s : Bytes) → bytes_eq s online ≡ false → s ≢ online
  not_online s h e = absurd_bool ((bytes_eq_iff s online).1 e) h
    where
      absurd_bool : {b : Bool} → b ≡ true → b ≡ false → ⊥
      absurd_bool t f = cc

  relay :
      (u : User) (toid : ℤ) (msg : Bytes) (w : ChatService mysql) (s : mysql.Server)
      → UserModel.query mysql atoi toid w.server ≡ ok (u, s)
      → u.state ≡ online
      → find toid w.user_conn_map ≡ none
      → w.redis.publish_context ≡ true
      → Routed toid msg w
          (record w { server = s; redis = Redis.publish (user_channel toid) msg w.redis })
  unfolding Redis.publish Redis.tell
  relay u toid msg w s q o f p = relayed u s q o f p (rw p refl)

  insertion :
      (u : User) (toid : ℤ) (msg : Bytes) (w : ChatService mysql) (s s' : mysql.Server) (b : Bool)
      → UserModel.query mysql atoi toid w.server ≡ ok (u, s)
      → u.state ≢ online
      → OfflineMsgModel.insert mysql atoi toid msg s ≡ ok (b, s')
      → Routed toid msg w (record w { server = s' })
  insertion u toid msg w s s' true q o i = stored u s s' q o i refl
  insertion u toid msg w s s' false q o i = untaken u s s' q o i refl

  -- A message that fits into the statement for offline messages, while Redis can be asked.
  forward-Routed :
      (toid : ℤ) (js : Json) (msg : Bytes) (w : ChatService mysql)
      → lib.dump js ≡ some msg
      → IsInt toid
      → Storable mysql atoi toid msg
      → w.redis.publish_context ≡ true
      → (w' : ChatService mysql) × (forward mysql atoi lib toid js w ≡ ok w') × Routed toid msg w w'
  unfolding forward route send_json send store_offline
  forward-Routed toid js msg w d h fits p =
      let q = query-Returns mysql atoi toid w.server h in
      rw q.1 (elim (Bool-cases (bytes_eq q.0.0.state online)) [
        | inl on ↦
            let e : q.0.0.state ≡ online = (bytes_eq_iff q.0.0.state online).0 on in
            elim (Option-cases (find toid w.user_conn_map)) [
              | inl f ↦ rw (on, f, route, d) (_, refl, relay q.0.0 toid msg w q.0.1 q.1 e f p)
              | inr (conn, f) ↦ rw (on, f, route, d) (_, refl, direct q.0.0 q.0.1 conn q.1 e f refl)
            ]
        | inr off ↦
            let i = insert-Returns mysql atoi toid msg q.0.1 fits in
            rw (off, route, d, i.1)
              (
                _,
                refl,
                insertion q.0.0 toid msg w q.0.1 i.0.1 i.0.0 q.1 (not_online q.0.0.state off) i.1,
              )
      ])

  -- `oneChat` of a message to a number that is an `int`, where the message can be dumped, its
  -- text fits into the statement for offline messages, and the context for publishing to Redis is
  -- open: it returns. A user that is online gets the message on the connection that is entered for
  -- that user, or, where there is none, Redis is told to publish just this message on the channel
  -- of just that user; for a user that is not online the table of offline messages has taken it,
  -- unless the data base could not be reached or refused. Besides, only the data base has changed.
  pub one_chat-Routed :
      (conn : ℕ) (js : Json) (toid : ℤ) (msg : Bytes) (w : ChatService mysql)
      → lib.get_int (codes "toid") js ≡ some toid
      → lib.dump js ≡ some msg
      → IsInt toid
      → Storable mysql atoi toid msg
      → w.redis.publish_context ≡ true
      → (w' : ChatService mysql) × (one_chat mysql atoi lib conn js w ≡ ok w')
        × Routed toid msg w w'
  unfolding one_chat
  one_chat-Routed conn js toid msg w t d h fits p = rw t (forward-Routed toid js msg w d h fits p)

  -- `Routed` to each of them, one after the other.
  pub data AllRouted (msg : Bytes) : List ℤ → ChatService mysql → ChatService mysql → Type 0 where
    done : (w : ChatService mysql) → AllRouted msg [] w w
    next :
        (id : ℤ) (ids : List ℤ) (w w' w'' : ChatService mysql)
        → Routed id msg w w'
        → AllRouted msg ids w' w''
        → AllRouted msg (id ∷ ids) w w''

  abbrev pub AllReachable : Bytes → List ℤ → Type 0
  AllReachable msg [] = Unit {0}
  AllReachable msg (id ∷ ids) = IsInt id × Storable mysql atoi id msg × AllReachable msg ids

  pub forward_all-Routed :
      (ids : List ℤ) (js : Json) (msg : Bytes) (w : ChatService mysql)
      → lib.dump js ≡ some msg
      → AllReachable msg ids
      → w.redis.publish_context ≡ true
      → (w' : ChatService mysql) × (forward_all mysql atoi lib ids js w ≡ ok w')
        × AllRouted msg ids w w'
  unfolding forward_all
  forward_all-Routed [] js msg w d r p = (w, refl, done w)
  forward_all-Routed (id ∷ ids) js msg w d r p =
      let (int, fits, others) = r in
      let (w', e, routed) = forward-Routed id js msg w d int fits p in
      let (w'', e', rest) =
        forward_all-Routed ids js msg w' d others (Routed-publish_context routed p) in
      rw (e, e') (w'', refl, next id ids w w' w'' routed rest)

  -- `oneChat` with a message of 984 bytes or more for a user that is not online, while the data
  -- base can be reached: `sprintf` writes behind the end of `sql`.
  pub one_chat-overflowed :
      (conn : ℕ) (js : Json) (toid : ℤ) (msg : Bytes) (w : ChatService mysql) (u : User)
      (s : mysql.Server)
      → lib.get_int (codes "toid") js ≡ some toid
      → UserModel.query mysql atoi toid w.server ≡ ok (u, s)
      → bytes_eq u.state online ≡ false
      → lib.dump js ≡ some msg
      → (Db.connect mysql s).0 ≡ true
      → 984 ≤ length (Db.c_str msg)
      → one_chat mysql atoi lib conn js w ≡ overflowed
  unfolding one_chat forward store_offline
  one_chat-overflowed conn js toid msg w u s t q off d c h =
      rw (t, q, off, route, d, insert-overflowed mysql atoi toid msg s c h)

  -- What `handleRedisSubscribeMessage` does with a message on a user's channel: the number is read
  -- back from the channel's name, so the message is sent to the connection of just that user if it
  -- is here, and is stored for that user otherwise.
  pub handle_redis_subscribe_message-user_channel :
      (id : ℤ) (msg : Bytes) (w : ChatService mysql)
      → IsInt id
      → handle_redis_subscribe_message mysql atoi lib (user_channel id) msg w
        ≡ elim (find id w.user_conn_map) [
          | some conn ↦ ok (record w { sent = w.sent ++ ((conn, msg) ∷ []) })
          | none ↦ OfflineMsgModel.insert mysql atoi id msg w.server >>= λ r.
              ok (record w { server = r.1 })
        ]
  unfolding handle_redis_subscribe_message send store_offline
  handle_redis_subscribe_message-user_channel id msg w h =
      rw
        (
          take-append 10 (codes "chat:user:") (to_string id) refl,
          bytes_eq_refl (codes "chat:user:"),
          drop-append 10 (codes "chat:user:") (to_string id) refl,
          stoi-to_string id h,
        )
        (elim (Option-cases (find id w.user_conn_map)) [
          | inl f ↦
              rw (f, notify) (stored_server (OfflineMsgModel.insert mysql atoi id msg w.server))
          | inr (conn, f) ↦ rw (f, notify)
        ])
    where
      stored_server :
          (m : Run (Bool × mysql.Server))
          → (call mysql atoi lib (λ s. m) w >>= λ r. ok r.1)
            ≡ (m >>= λ r. ok (record w { server = r.1 }))
      stored_server (ok r) = refl
      stored_server threw = refl
      stored_server overflowed = refl
