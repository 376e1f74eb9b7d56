-- ===== src/Chat/Service/Example.antt =====
-- A data base, a JSON library and a service, for runs of chat-main/src/server/ChatService.cpp.
use mprpc_main.Common.{
  ◌-◌, ◌%◌, arith, true, false, Option, none, some, List, [], ◌∷◌, Bytes, codes, ℤ, pos, find,
  bytes_key, int_key,
}
use mprpc_main.Chat.Db.{MySql}
use mprpc_main.Chat.Models.{User}
use mprpc_main.Chat.Json.{JsonLibrary, Value, number, text}
use mprpc_main.Chat.Service.{ChatService}
use mprpc_main.Chat.Models.UserModel.Bounds.{GivesInts}

-- A server that answers every query with one user, and keeps the statements.
abbrev pub one_user : Bytes → MySql
one_user state = record {
  Server = List Bytes;
  connect = λ s. (true, s);
  query = λ sql s. (true, sql ∷ s);
  rows = λ s. some ((codes "5" ∷ codes "ann" ∷ codes "pw" ∷ state ∷ []) ∷ []);
  insert_id = λ s. pos 1;
}

-- One digit is read.
abbrev pub digit : Bytes → ℤ
digit [] = pos 0
digit (c ∷ s) = pos ((c - 48) % 10)

pub digit-GivesInts : GivesInts digit
digit-GivesInts [] = omega arith
digit-GivesInts (c ∷ s) = omega arith

abbrev pub as_int : Option Value → Option ℤ
as_int (some (number i)) = some i
as_int _ = none

abbrev pub as_string : Option Value → Option Bytes
as_string (some (text s)) = some s
as_string _ = none

-- Objects that are all dumped to the same text.
abbrev pub dumped_to : Bytes → JsonLibrary
dumped_to bytes = record {
  Json = List (Bytes × Value);
  parse = λ s. none;
  get_int = λ key js. as_int (find key js);
  get_string = λ key js. as_string (find key js);
  contains = λ key js. false;
  get_texts = λ key js. some [];
  shown = λ key js. as_string (find key js);
  object = λ fields. fields;
  dump = λ js. some bytes;
}

abbrev pub hello : Bytes
hello = codes "{}"

-- Two connections of three users.
abbrev pub three_users : (state : Bytes) → ChatService (one_user state)
three_users state = record {
  user_conn_map = (pos 5, 70) ∷ (pos 6, 71) ∷ (pos 8, 70) ∷ [];
  redis = record { publish_context = true; subscribe_context = true; commands = [] };
  server = [];
  sent = [];
}

abbrev pub to_five : List (Bytes × Value)
to_five = (codes "toid", number (pos 5)) ∷ []

abbrev pub ann : Bytes → User
ann state = record { id = pos 5; name = codes "ann"; pwd = codes "pw"; state = state }
