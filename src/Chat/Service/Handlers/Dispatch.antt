-- ===== src/Chat/Service/Handlers/Dispatch.antt =====
-- `ChatServer::OnMessage` of chat-main/src/server/ChatServer.cpp hands a text to the handler that
-- it names.
use mprpc_main.Common.{ℕ, ◌≡◌, refl, some, Bytes, codes, ℤ, pos}
use mprpc_main.Chat.Db.{ok, MySql}
use mprpc_main.Chat.Json.{JsonLibrary}
use mprpc_main.Chat.Service.{ChatService, one_chat}
use mprpc_main.Chat.Service.Handlers.{on_message, handle_text, get_handler, handler_at, int_of}
use mprpc_main.Muduo.Buffer.{Buffer, retrieve_all}
use mprpc_main.Muduo.Buffer.Invariant.{IsValid, contents, retrieve_all_as_string_lem}

module _ (mysql : MySql) (atoi : Bytes → ℤ) (lib : JsonLibrary) where
  -- A text of `ONE_CHAT_MSG` that is all of a valid buffer is handled by `oneChat`, and the buffer
  -- is emptied.
  pub on_message-one_chat :
      (conn : ℕ) (js : lib.Json) (msg : Bytes) (b : Buffer) (w w' : ChatService mysql)
      → IsValid b
      → contents b ≡ msg
      → lib.parse msg ≡ some js
      → lib.get_int (codes "msgid") js ≡ some (pos 3)
      → one_chat mysql atoi lib conn js w ≡ ok w'
      → on_message mysql atoi lib conn b w ≡ ok (w', retrieve_all b)
  unfolding on_message handle_text get_handler handler_at int_of
  on_message-one_chat conn js msg b w w' v c p t h =
      rw (retrieve_all_as_string_lem b v, handle_text, c, p, int_of, t, get_handler, handler_at, h)
        refl
