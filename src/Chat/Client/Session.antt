-- ===== src/Chat/Client/Session.antt =====
-- chat-main/src/client/ChatClient.cpp: logging in, registering, the two loops on the input, and the
-- thread that reads messages.
use mprpc_main.Common.{
  ℕ, zero, suc, Bool, true, false, Option, none, some, List, [], ◌∷◌, ◌++◌, Bytes, codes, take, ℤ,
  pos,
}
use mprpc_main.Chat.Db.{c_str}
use mprpc_main.Chat.Json.{JsonLibrary, number, text}
use mprpc_main.Chat.Client.Input.{read_int, read_word, get_char, get_line}
use mprpc_main.Chat.Client.State.{
  Client, Kernel, Outcome, ended, threw, out_of_fuel, ◌>>=◌, need, log, with_input, started_reader,
  connect_server, close, join_reader,
}
use mprpc_main.Chat.Client.Display.{show_current_user_data, show_message}
use mprpc_main.Chat.Client.Commands.{request, answer, perform}

module _ (kernel : Kernel) (lib : JsonLibrary) where
  open lib use {Json}

  unfoldable pub if_connected : (Client → Outcome) → Bool × Client → Outcome
  if_connected k (true, w) = k w
  if_connected k (false, w) = ended w

  -- `if (_clientfd == -1 && !connectServer(_serverIp, _serverPort)) return;`
  unfoldable pub on_connection : (Client → Outcome) → Option ℕ → Client → Outcome
  unfolding if_connected
  on_connection k (some n) w = k w
  on_connection k none w = if_connected k (connect_server kernel w.server_ip w.server_port w)

  -- The loop on the commands of `login`.
  unfoldable pub command_loop : ℕ → Client → Outcome
  command_loop zero w = out_of_fuel w
  command_loop (suc fuel) w = elim w.logged_in [
    | true ↦
        let (command, i) = get_line w.input in
        perform kernel lib command (with_input i w) >>= command_loop fuel
    | false ↦ ended w
  ]

  abbrev pub show_lines : List Bytes → Client → Client
  show_lines lines w = record w { printed = w.printed ++ lines }

  -- `_readTask = std::thread(…)`.
  abbrev pub start_reader : Client → Client
  start_reader w = log started_reader (record w { reading = true })

  -- What `login` does with the data of the user, up to the first command.
  unfoldable pub start_session : ℤ → Bytes → List Bytes → Client → Client
  start_session id name lines w =
      let user = record w { logged_in = true; user_id = id; user_name = name } in
      let session = start_reader (join_reader (show_lines lines user)) in
      with_input (get_char session.input) session

  -- `login`, after an answer without an error.
  unfoldable pub accepted : ℕ → Json → Client → Outcome
  unfolding command_loop
  accepted fuel js w = need (lib.get_int (codes "id") js) (λ id.
      need (lib.get_string (codes "name") js) (λ name.
        need (show_current_user_data lib js)
          (λ lines. command_loop fuel (start_session id name lines w))))

  -- By `errno`.
  unfoldable pub login_answered : ℕ → Option ℤ → Json → Client → Outcome
  unfolding accepted
  login_answered fuel none js w = threw
  login_answered fuel (some (pos zero)) js w = accepted fuel js w
  login_answered fuel (some _) js w =
      need (lib.shown (codes "errmsg") js) (λ s. ended (show_lines (s ∷ []) w))

  unfoldable pub log_in : ℕ → Client → Outcome
  unfolding login_answered
  log_in fuel w =
      let (id, i) = read_int w.input in
      let (password, j) = read_word i in
      request kernel lib
        ((codes "msgid", number (pos 1))
          ∷ (codes "id", number id)
          ∷ (codes "password", text password)
          ∷ [])
        (answer kernel lib 4096 (λ js. login_answered fuel (lib.get_int (codes "errno") js) js))
        (with_input j w)

  -- `ChatClient::login`.
  unfoldable pub login : ℕ → Client → Outcome
  unfolding on_connection log_in
  login fuel w = on_connection (log_in fuel) w.fd w

  unfoldable pub reg_answered : Option ℤ → Json → Client → Outcome
  reg_answered none js w = threw
  reg_answered (some (pos zero)) js w =
      need (lib.shown (codes "id") js)
        (λ s. ended (show_lines ((codes "reg success, userid is " ++ s) ∷ []) w))
  reg_answered (some _) js w = ended (show_lines (codes "reg failed" ∷ []) w)

  unfoldable pub register : Client → Outcome
  unfolding reg_answered
  register w =
      let (name, i) = read_word w.input in
      let (password, j) = read_word i in
      request kernel lib
        ((codes "msgid", number (pos 2))
          ∷ (codes "name", text name)
          ∷ (codes "password", text password)
          ∷ [])
        (answer kernel lib 1024 (λ js. reg_answered (lib.get_int (codes "errno") js) js))
        (with_input j w)

  -- `ChatClient::reg`.
  unfoldable pub reg : Client → Outcome
  unfolding on_connection register
  reg w = on_connection register w.fd w

  -- The third choice of `mainMenu`.
  abbrev pub quit : Client → Client
  quit w = join_reader (close (record w { logged_in = false }))

  -- The `switch` of `mainMenu`, and the rest of its loop.
  unfoldable pub choose : ℕ → (Client → Outcome) → ℤ → Client → Outcome
  unfolding login reg
  choose fuel loop (pos (suc zero)) w = login fuel w >>= loop
  choose fuel loop (pos (suc (suc zero))) w = reg w >>= loop
  choose fuel loop (pos (suc (suc (suc zero)))) w = ended (quit w)
  choose fuel loop _ w = loop w

  -- `ChatClient::mainMenu`.
  unfoldable pub main_menu : ℕ → Client → Outcome
  unfolding choose
  main_menu zero w = out_of_fuel w
  main_menu (suc fuel) w =
      let (choice, i) = read_int w.input in choose fuel (main_menu fuel) choice (with_input i w)

  unfoldable pub to_menu : ℕ → Bool × Client → Outcome
  to_menu fuel (true, w) = main_menu fuel w
  to_menu fuel (false, w) = ended w

  -- `ChatClient::run`.
  unfoldable pub run : ℕ → Bytes → ℕ → Client → Outcome
  unfolding to_menu
  run fuel ip port w =
      let named = record w { server_ip = ip; server_port = port } in
      to_menu fuel (connect_server kernel ip port named)

  -- What is printed of a message that was read; `none` is an exception, which ends the program.
  unfoldable pub message_lines : Bytes → Option (List Bytes)
  unfolding show_message c_str
  message_lines s = elim (lib.parse (c_str (take 1024 s))) [
    | some js ↦ show_message lib js
    | none ↦ none
  ]

  -- `readTaskHandler`, by the messages that its reads give while the user is logged in: an empty
  -- one is the end of the connection, an error, or the end of the session.
  unfoldable pub read_task_handler : List Bytes → Option (List Bytes)
  unfolding message_lines
  read_task_handler [] = some []
  read_task_handler ([] ∷ reads) = some []
  read_task_handler (s ∷ reads) = elim (message_lines s) [
    | some lines ↦ elim (read_task_handler reads) [ some more ↦ some (lines ++ more) | none ↦ none ]
    | none ↦ none
  ]
