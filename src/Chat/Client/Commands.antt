-- ===== src/Chat/Client/Commands.antt =====
-- chat-main/src/client/ChatClient.cpp: the commands of a user that is logged in, and the request
-- and the answer that `login` and `reg` share.
use mprpc_main.Common.{
  ℕ, Bool, true, false, Option, none, some, List, [], ◌∷◌, Bytes, codes, bytes_eq, if◌then◌else◌, ℤ,
  pos,
}
use mprpc_main.Chat.Json.{JsonLibrary, Value, number, text}
use mprpc_main.Chat.Client.Input.{Input, read_int, get_char, get_line}
use mprpc_main.Chat.Client.State.{
  Client, Kernel, Outcome, ended, with_input, need, write, read, close, join_reader,
}

-- A number, and the end of its line.
unfoldable pub read_number : Input → ℤ × Input
read_number i = ((read_int i).0, get_char (read_int i).1)

abbrev pub one_chat_fields : ℤ → ℤ → Bytes → List (Bytes × Value)
one_chat_fields id toid message =
    (codes "msgid", number (pos 3))
    ∷ (codes "id", number id)
    ∷ (codes "toid", number toid)
    ∷ (codes "msg", text message)
    ∷ []

abbrev pub logged_out : Client → Outcome
logged_out w =
    ended (join_reader (close (record w { logged_in = false; user_id = pos 0; user_name = [] })))

module _ (kernel : Kernel) (lib : JsonLibrary) where
  open lib use {Json}

  -- By whether the request was written.
  unfoldable pub if_sent : (Client → Outcome) → Bool × Client → Outcome
  if_sent k (true, w) = k w
  if_sent k (false, w) = ended w

  -- `js.dump()`, and `write`; an error ends the operation.
  unfoldable pub request : List (Bytes × Value) → (Client → Outcome) → Client → Outcome
  unfolding if_sent
  request fields k w = need (lib.dump (lib.object fields)) (λ msg. if_sent k (write kernel msg w))

  unfoldable pub parsed : (Json → Client → Outcome) → Option Bytes × Client → Outcome
  parsed k (none, w) = ended w
  parsed k (some s, w) = need (lib.parse s) (λ js. k js w)

  -- The answer, read into a buffer of that size and parsed; an error ends the operation.
  unfoldable pub answer : ℕ → (Json → Client → Outcome) → Client → Outcome
  unfolding parsed
  answer room k w = parsed k (read kernel room w)

  -- `ChatClient::oneChat`.
  unfoldable pub one_chat : Client → Outcome
  one_chat w =
      let (toid, i) = read_number w.input in
      let (message, j) = get_line i in
      request (one_chat_fields w.user_id toid message) ended (with_input j w)

  -- `ChatClient::addFriend`.
  unfoldable pub add_friend : Client → Outcome
  add_friend w =
      let (friendid, i) = read_number w.input in
      request
        ((codes "msgid", number (pos 5))
          ∷ (codes "id", number w.user_id)
          ∷ (codes "friendid", number friendid)
          ∷ [])
        ended (with_input i w)

  -- `ChatClient::createGroup`.
  unfoldable pub create_group : Client → Outcome
  create_group w =
      let (groupname, i) = get_line w.input in
      let (groupdesc, j) = get_line i in
      request
        ((codes "msgid", number (pos 6))
          ∷ (codes "id", number w.user_id)
          ∷ (codes "groupname", text groupname)
          ∷ (codes "groupdesc", text groupdesc)
          ∷ [])
        ended (with_input j w)

  -- `ChatClient::addGroup`.
  unfoldable pub add_group : Client → Outcome
  add_group w =
      let (groupid, i) = read_number w.input in
      request
        ((codes "msgid", number (pos 7))
          ∷ (codes "id", number w.user_id)
          ∷ (codes "groupid", number groupid)
          ∷ [])
        ended (with_input i w)

  -- `ChatClient::groupChat`.
  unfoldable pub group_chat : Client → Outcome
  group_chat w =
      let (groupid, i) = read_number w.input in
      let (message, j) = get_line i in
      request
        ((codes "msgid", number (pos 8))
          ∷ (codes "id", number w.user_id)
          ∷ (codes "groupid", number groupid)
          ∷ (codes "msg", text message)
          ∷ [])
        ended (with_input j w)

  -- `ChatClient::loginout`.
  unfoldable pub loginout : Client → Outcome
  loginout w =
      if w.logged_in
      then request ((codes "msgid", number (pos 4)) ∷ (codes "id", number w.user_id) ∷ [])
          logged_out w
      else ended w

  -- The command that `login` has read; another one is only told to be invalid.
  unfoldable pub perform : Bytes → Client → Outcome
  unfolding one_chat add_friend create_group add_group group_chat loginout
  perform command w =
      if bytes_eq command (codes "chat")
      then one_chat w
      else if bytes_eq command (codes "addfriend")
      then add_friend w
      else if bytes_eq command (codes "creategroup")
      then create_group w
      else if bytes_eq command (codes "addgroup")
      then add_group w
      else if bytes_eq command (codes "groupchat")
      then group_chat w
      else if bytes_eq command (codes "loginout")
      then loginout w
      else ended w
