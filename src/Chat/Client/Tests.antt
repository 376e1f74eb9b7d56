-- ===== src/Chat/Client/Tests.antt =====
-- Runs of chat-main/src/client/ChatClient.cpp, with a kernel and a JSON library made for them.
use mprpc_main.Common.{
  ◌≡◌, refl, arith, true, false, Option, none, some, List, [], ◌∷◌, Bytes, codes, bytes_key, find,
  ℤ, pos,
}
use mprpc_main.Chat.Json.{JsonLibrary, Value, number, text}
use mprpc_main.Chat.Client.Input.{at, failed}
use mprpc_main.Chat.Client.Input.Consumes.{size}
use mprpc_main.Chat.Client.State.{Kernel, Client, Outcome, out_of_fuel, new}
use mprpc_main.Chat.Client.Session.{run, main_menu, command_loop}
use mprpc_main.Chat.Client.Discipline.{After, Closed}
use mprpc_main.Chat.Client.Discipline.Menu.{run-Closed, menu-endless}

-- A kernel where everything succeeds, and the answer to a read is one byte.
abbrev willing : Kernel
willing = record {
  socket = λ t. some 5;
  connect = λ t n ip port. true;
  write = λ t n msg. true;
  read = λ t n room. some (1 ∷ []);
}

abbrev as_int : Option Value → Option ℤ
as_int (some (number i)) = some i
as_int _ = none

abbrev as_string : Option Value → Option Bytes
as_string (some (text s)) = some s
as_string _ = none

-- Every text is the answer to a login that was accepted.
abbrev accepting : JsonLibrary
accepting = record {
  Json = List (Bytes × Value);
  parse = λ s. some (
      (codes "errno", number (pos 0))
      ∷ (codes "id", number (pos 7))
      ∷ (codes "name", text (codes "ann"))
      ∷ []);
  get_int = λ key js. as_int (find key js);
  get_string = λ key js. as_string (find key js);
  contains = λ key js. false;
  get_texts = λ key js. some [];
  shown = λ key js. some [];
  object = λ fields. fields;
  dump = λ js. some (2 ∷ []);
}

-- Log in, send a message, log out, quit.
abbrev typed_in : Bytes
typed_in = codes "1 7 pw\nchat\n8\nhi\nloginout\n3\n"

abbrev ip : Bytes
ip = codes "127.0.0.1"

run-Closed_example :
    After (size (at typed_in)) Closed (run willing accepting 40 ip 8000 (new (at typed_in)))
run-Closed_example =
    run-Closed willing accepting 40 ip 8000 (at typed_in) (unfold size in omega arith)

abbrev at_end : Client
at_end = record (new (at [])) { input = failed }

menu-endless_example :
    (main_menu willing accepting 40 at_end ≡ out_of_fuel at_end)
    × (command_loop willing accepting 40 (record at_end { logged_in = true })
        ≡ out_of_fuel (record at_end { logged_in = true }))
unfolding new
menu-endless_example = menu-endless willing accepting 40 at_end refl

abbrev result : Outcome
result = run willing accepting 40 ip 8000 (new (at typed_in))
