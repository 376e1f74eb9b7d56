-- ===== src/Chat/Client/Delivery.antt =====
-- From chat-main/src/client/ChatClient.cpp of one user through the chat server to that of another.
mod Tests
use mprpc_main.Common.{
  ℕ, suc, ◌≤◌, ◌≡◌, refl, sym, ap, subst, ◌∙◌, arith, Bool, true, false, Option, none, some, List,
  [], ◌∷◌, ◌++◌, ◌>>=◌, Bytes, length, take, codes, find, bytes_key, bytes_eq, ℤ, pos, int_eq,
  take_all,
}
use mprpc_main.Chat.Db.{ok, c_str, MySql}
use mprpc_main.Chat.Json.{JsonLibrary, JsonLaws, Value, number, is_plain}
use mprpc_main.Common.Strings.Decimal.{to_string}
use mprpc_main.Chat.Models.OfflineMsgModel.Stored.{short-Storable}
use mprpc_main.Chat.Service.{ChatService}
use mprpc_main.Chat.Service.Routing.{Routed, one_chat-Routed}
use mprpc_main.Chat.Service.Handlers.{on_message}
use mprpc_main.Chat.Service.Handlers.Dispatch.{on_message-one_chat}
use mprpc_main.Chat.Client.Input.{Input, read_int, get_line}
use mprpc_main.Chat.Client.Input.Consumes.{read_int-IsInt}
use mprpc_main.Chat.Client.State.{
  Kernel, Client, ended, log, sent, write, write_at, with_input, Trace,
}
use mprpc_main.Chat.Client.Display.{show_message, show_by, show_one}
use mprpc_main.Chat.Client.Commands.{request, if_sent, one_chat, one_chat_fields, read_number}
use mprpc_main.Chat.Client.Session.{message_lines}
use mprpc_main.Muduo.Buffer.{Buffer, retrieve_all}
use mprpc_main.Muduo.Buffer.Invariant.{IsValid, contents}

-- The object that `oneChat` makes of what the user types.
abbrev pub typed : (lib : JsonLibrary) → Client → lib.Json
typed lib w =
    let (toid, i) = read_number w.input in
    lib.object (one_chat_fields w.user_id toid (get_line i).0)

-- The line of `readTaskHandler`.
abbrev pub said : Bytes → Bytes → Bytes
said id message = codes "[one chat] user " ++ id ++ codes " said: " ++ message

-- What is left to read behind it.
abbrev pub after_typing : Client → Client
after_typing w = with_input (get_line (read_number w.input).1).1 w

module _ (kernel : Kernel) (lib : JsonLibrary) (laws : JsonLaws lib) where
  -- The request is written.
  one_chat-sent :
      (w : Client) (msg : Bytes)
      → lib.dump (typed lib w) ≡ some msg
      → write_at kernel w.fd msg w.trace ≡ true
      → one_chat kernel lib w ≡ ended (log (sent w.fd msg) (after_typing w))
  unfolding one_chat request write
  one_chat-sent w msg d h = rw (d, h) refl

  parse-typed :
      (w : Client) (msg : Bytes)
      → lib.dump (typed lib w) ≡ some msg
      → length msg ≤ 1024
      → lib.parse (c_str (take 1024 msg)) ≡ some (typed lib w)
  parse-typed w msg d le =
      ap (λ s. lib.parse (c_str s)) (take_all 1024 msg le)
      ∙ ap lib.parse (laws.c_str-dump (typed lib w) msg d)
      ∙ laws.parse-dump (typed lib w) msg d

  msgid-typed : (w : Client) → lib.get_int (codes "msgid") (typed lib w) ≡ some (pos 3)
  unfolding find bytes_eq
  msgid-typed w = laws.get_int-object _ (codes "msgid") (pos 3) refl

  toid-typed :
      (w : Client) → lib.get_int (codes "toid") (typed lib w) ≡ some (read_number w.input).0
  unfolding find bytes_eq
  toid-typed w = laws.get_int-object _ (codes "toid") (read_number w.input).0 refl

  -- What is shown of a typed message.
  show_one-typed :
      (w : Client)
      → is_plain (get_line (read_number w.input).1).0 ≡ true
      → show_one lib (typed lib w)
        ≡ some (
            said (to_string w.user_id) (b'"' ∷ (get_line (read_number w.input).1).0 ++ (b'"' ∷ []))
            ∷ [])
  unfolding show_one find bytes_eq
  show_one-typed w p =
      rw
        (
          laws.shown-number
              (one_chat_fields w.user_id (read_number w.input).0
                (get_line (read_number w.input).1).0)
              (codes "id") w.user_id refl,
          laws.shown-text
              (one_chat_fields w.user_id (read_number w.input).0
                (get_line (read_number w.input).1).0)
              (codes "msg") (get_line (read_number w.input).1).0 refl p,
        )
        refl

  -- The text is shown as the message that it was made of.
  message_lines-typed :
      (w : Client) (msg : Bytes)
      → lib.dump (typed lib w) ≡ some msg
      → length msg ≤ 1024
      → message_lines kernel lib msg ≡ show_one lib (typed lib w)
  unfolding message_lines show_message show_by int_eq
  message_lines-typed w msg d le =
      subst
        (λ o.
          elim o as (λ _. Option (List Bytes)) [ some js ↦ show_message lib js | none ↦ none ]
          ≡ show_one lib (typed lib w))
        (sym (parse-typed w msg d le))
        (ap (λ o. o >>= λ msgid. show_by lib msgid (typed lib w)) (msgid-typed w))

-- What a user types into `oneChat`, where the request is dumped to a text of at most 972 bytes, the
-- line is plain, and `write` does not fail, which on a blocking socket takes the whole text: the
-- client has written just that text. The server, when the text is all of a valid buffer and its context for publishing to Redis
-- is open, returns with the buffer empty, and for the user of the number that was typed, the text is
-- on the connection entered for that user, or published on just that user's channel if the user is
-- online without a connection here, or, if the user is not online, taken by the table of offline
-- messages, unless the data base answered that it did not. And a client that reads the text shows
-- the number of the sender, in decimal, and the line that was typed, in quotation marks.
pub one_chat-delivered :
    (kernel : Kernel) (lib : JsonLibrary) (laws : JsonLaws lib) (mysql : MySql) (atoi : Bytes → ℤ)
    (w : Client) (msg : Bytes) (conn : ℕ) (b : Buffer) (s : ChatService mysql)
    → lib.dump (typed lib w) ≡ some msg
    → length msg ≤ 972
    → IsValid b
    → contents b ≡ msg
    → is_plain (get_line (read_number w.input).1).0 ≡ true
    → write_at kernel w.fd msg w.trace ≡ true
    → s.redis.publish_context ≡ true
    → (one_chat kernel lib w ≡ ended (log (sent w.fd msg) (after_typing w)))
      × ((s' : ChatService mysql) × (on_message mysql atoi lib conn b s ≡ ok (s', retrieve_all b))
          × Routed mysql atoi lib (read_number w.input).0 msg s s')
      × (message_lines kernel lib msg
          ≡ some (
              said
                (to_string w.user_id)
                (b'"' ∷ (get_line (read_number w.input).1).0 ++ (b'"' ∷ []))
              ∷ []))
unfolding read_number
one_chat-delivered kernel lib laws mysql atoi w msg conn b s d le v c plain written p =
    let toid = (read_int w.input).0 in
    let short = subst (λ t. length t ≤ 972) (sym (laws.c_str-dump (typed lib w) msg d)) le in
    let (s', e, r) =
      one_chat-Routed mysql atoi lib conn (typed lib w) toid msg s (toid-typed kernel lib laws w) d
        (read_int-IsInt w.input) (short-Storable mysql atoi toid msg (read_int-IsInt w.input) short)
        p in
    (
      one_chat-sent kernel lib laws w msg d written,
      (
        s',
        on_message-one_chat mysql atoi lib conn (typed lib w) msg b s s' v c
            (laws.parse-dump (typed lib w) msg d) (msgid-typed kernel lib laws w) e,
        r,
      ),
      message_lines-typed kernel lib laws w msg d (omega arith)
          ∙ show_one-typed kernel lib laws w plain,
    )
