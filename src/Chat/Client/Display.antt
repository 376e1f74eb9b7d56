-- ===== src/Chat/Client/Display.antt =====
-- chat-main/src/client/ChatClient.cpp: the lines that show what the server has sent. `none` is an
-- exception.
use mprpc_main.Common.{
  true, false, Option, some, List, [], ◌∷◌, ◌++◌, Bytes, codes, ◌>>=◌, ℤ, pos, int_eq,
  if◌then◌else◌,
}
use mprpc_main.Chat.Json.{JsonLibrary}

each : (Bytes → Option (List Bytes)) → List Bytes → Option (List Bytes)
each f [] = some []
each f (s ∷ ss) = do lines ← f s; more ← each f ss; some (lines ++ more)

module _ (lib : JsonLibrary) where
  open lib use {Json}

  show_friend : Bytes → Option (List Bytes)
  show_friend str = do
    js ← lib.parse str
    id ← lib.shown (codes "id") js
    name ← lib.shown (codes "name") js
    state ← lib.shown (codes "state") js
    some ((codes "id:" ++ id ++ codes " name:" ++ name ++ codes " state:" ++ state) ∷ [])

  show_member : Bytes → Option (List Bytes)
  show_member userstr = do
    js ← lib.parse userstr
    id ← lib.shown (codes "id") js
    name ← lib.shown (codes "name") js
    state ← lib.shown (codes "state") js
    role ← lib.shown (codes "role") js
    some (
        (codes "    member id:"
          ++ id
          ++ codes " name:"
          ++ name
          ++ codes " state:"
          ++ state
          ++ codes " role:"
          ++ role)
        ∷ [])

  -- A title, and the loop over a member that is there.
  section : Bytes → List Bytes → (Bytes → Option (List Bytes)) → Json → Option (List Bytes)
  unfolding each
  section key title f js = elim (lib.contains key js) [
    | true ↦ lib.get_texts key js >>= λ ss. each f ss >>= λ lines. some (title ++ lines)
    | false ↦ some []
  ]

  show_group : Bytes → Option (List Bytes)
  unfolding section show_member
  show_group str = do
    js ← lib.parse str
    id ← lib.shown (codes "id") js
    name ← lib.shown (codes "groupname") js
    desc ← lib.shown (codes "groupdesc") js
    members ← section (codes "users") [] show_member js
    some (
        (codes "group id:" ++ id ++ codes " group name:" ++ name ++ codes " group desc:" ++ desc)
        ∷ members)

  -- `ChatClient::showCurrentUserData`.
  pub show_current_user_data : Json → Option (List Bytes)
  unfolding section show_friend show_group
  show_current_user_data response = do
    id ← lib.shown (codes "id") response
    name ← lib.shown (codes "name") response
    msgs ←
        section (codes "offlinemsg")
          (codes "================ offline messages ================" ∷ []) (λ msg. some (msg ∷ []))
          response
    friends ←
        section (codes "friends") (codes "================ friends ================" ∷ [])
          show_friend response
    groups ←
        section (codes "groups") (codes "================ groups ================" ∷ []) show_group
          response
    some (
        codes "================ current user ================"
        ∷ (codes "id: " ++ id)
        ∷ (codes "name: " ++ name)
        ∷ (msgs ++ friends ++ groups))

  unfoldable pub show_one : Json → Option (List Bytes)
  show_one js = do
    id ← lib.shown (codes "id") js
    msg ← lib.shown (codes "msg") js
    some ((codes "[one chat] user " ++ id ++ codes " said: " ++ msg) ∷ [])

  show_of_group : Json → Option (List Bytes)
  show_of_group js = do
    groupid ← lib.shown (codes "groupid") js
    id ← lib.shown (codes "id") js
    msg ← lib.shown (codes "msg") js
    some (
        (codes "[group chat] group " ++ groupid ++ codes " user " ++ id ++ codes " said: " ++ msg)
        ∷ [])

  unfoldable pub show_by : ℤ → Json → Option (List Bytes)
  unfolding show_one show_of_group
  show_by msgid js =
      if int_eq msgid (pos 3)
      then show_one js
      else if int_eq msgid (pos 8)
      then show_of_group js
      else some []

  -- What `readTaskHandler` prints of a message: `ONE_CHAT_MSG` is 3, `GROUP_CHAT_MSG` is 8.
  unfoldable pub show_message : Json → Option (List Bytes)
  unfolding show_by
  show_message js = lib.get_int (codes "msgid") js >>= λ msgid. show_by msgid js
