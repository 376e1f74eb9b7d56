-- ===== src/Chat/Service/Login/Accepted.antt =====
-- What `login` does for a user whom it accepts.
use mprpc_main.Common.{ℕ, ◌≡◌, some, List, [], ◌∷◌, ◌++◌, Bytes, codes, ℤ, pos, int_key, insert}
use mprpc_main.Chat.Db.{MySql}
use mprpc_main.Chat.Models.{User}
use mprpc_main.Chat.Models.UserModel
use mprpc_main.Chat.Models.OfflineMsgModel
use mprpc_main.Chat.Models.FriendModel
use mprpc_main.Chat.Models.GroupModel
use mprpc_main.Chat.Models.Queries.{EachClean, GivesClean}
use mprpc_main.Chat.Redis
use mprpc_main.Chat.Json.{JsonLibrary, Value, number, text, texts}
use mprpc_main.Chat.Service.{ChatService, user_channel}

-- The texts of a field are clean.
abbrev pub FieldsClean : (Clean : Bytes → Type 0) → List (Bytes × Value) → Type 0
FieldsClean Clean [] = Unit {0}
FieldsClean Clean ((key, number i) ∷ fields) = FieldsClean Clean fields
FieldsClean Clean ((key, text s) ∷ fields) = Clean s × FieldsClean Clean fields
FieldsClean Clean ((key, texts ss) ∷ fields) = EachClean Clean ss × FieldsClean Clean fields

-- A field that is there only if there is something to say.
abbrev pub listed : Bytes → List Bytes → List (Bytes × Value)
listed name [] = []
listed name (t ∷ ts) = (name, texts (t ∷ ts)) ∷ []

-- What `dump` promises: an object whose texts are clean, which is UTF-8 for the library, has a text,
-- and that is clean.
abbrev pub DumpsClean : JsonLibrary → (Bytes → Type 0) → Type 0
DumpsClean lib Clean =
    (fields : List (Bytes × Value))
    → FieldsClean Clean fields
    → (s : Bytes) × (lib.dump (lib.object fields) ≡ some s) × Clean s

module _ (mysql : MySql) (atoi : Bytes → ℤ) (lib : JsonLibrary) (Clean : Bytes → Type 0)
    (gives : GivesClean mysql Clean) (dumps : DumpsClean lib Clean) where
  open lib use {Json}

  abbrev Dumped : Json → Type 0
  Dumped js = (s : Bytes) × (lib.dump js ≡ some s) × Clean s

  abbrev EachDumped : List Json → Type 0
  EachDumped [] = Unit {0}
  EachDumped (js ∷ rest) = Dumped js × EachDumped rest

  -- Only the data base has changed.
  abbrev pub Same : ChatService mysql → ChatService mysql → Type 0
  Same w w' = (w'.user_conn_map ≡ w.user_conn_map) × (w'.redis ≡ w.redis) × (w'.sent ≡ w.sent)

  -- What the text of the response to the user `u` is made of: the fields `rest` behind the first
  -- ones are lists of texts, for messages, friends and groups.
  abbrev pub Welcome : User → Bytes → Type 0
  Welcome u msg =
      (offline friends groups : List Bytes) × (lib.dump (
          lib.object (
            (codes "msgid", number (pos 1))
            ∷ (codes "errno", number (pos 0))
            ∷ (codes "id", number u.id)
            ∷ (codes "name", text u.name)
            ∷ (listed (codes "offlinemsg") offline
                ++ (listed (codes "friends") friends ++ listed (codes "groups") groups))))
        ≡ some msg)

  -- One response has been sent on the connection, and only the data base has changed besides.
  abbrev pub Responded : ℕ → User → ChatService mysql → ChatService mysql → Type 0
  Responded conn u w w' =
      (w'.user_conn_map ≡ w.user_conn_map)
      × (w'.redis ≡ w.redis)
      × (msg : Bytes) × Welcome u msg
      × (w'.sent ≡ w.sent ++ ((conn, msg) ∷ []))

  -- The user is reached by the connection, Redis is asked for the user's channel, and one response
  -- has been sent on the connection; besides, only the data base has changed.
  abbrev pub Entered : ℕ → ℤ → User → ChatService mysql → ChatService mysql → Type 0
  Entered conn id u w w' =
      (w'.user_conn_map ≡ insert id conn w.user_conn_map)
      × (w'.redis ≡ Redis.subscribe (user_channel id) w.redis)
      × (msg : Bytes) × Welcome u msg
      × (w'.sent ≡ w.sent ++ ((conn, msg) ∷ []))
