-- ===== src/Chat/Json.antt =====
-- nlohmann's JSON, as chat-main uses it: a parameter of the chat server and of the chat client.
use mprpc_main.Common.{
  ◌≡◌, Bool, true, not, ◌&&◌, ◌==◌, ltb, leb, Option, some, List, [], ◌∷◌, ◌++◌, Bytes, ℤ, find,
  bytes_key,
}
use mprpc_main.Common.Strings.Decimal.{to_string}
use mprpc_main.Chat.Db.{c_str}

-- What is put into an object.
pub data Value : Type 0 where
  number : ℤ → Value
  text : Bytes → Value
  texts : List Bytes → Value

-- `none` is an exception. `dump` throws on a string that is not UTF-8. `get_texts` is a loop over
-- the strings of a member, and `shown` is what `<<` prints of a member; `object` is made of fields
-- whose names differ.
pub record JsonLibrary : Type 1 where
  pub Json : Type 0
  pub parse : Bytes → Option Json
  pub get_int : Bytes → Json → Option ℤ
  pub get_string : Bytes → Json → Option Bytes
  pub contains : Bytes → Json → Bool
  pub get_texts : Bytes → Json → Option (List Bytes)
  pub shown : Bytes → Json → Option Bytes
  pub object : List (Bytes × Value) → Json
  pub dump : Json → Option Bytes

-- A text that JSON writes as it stands: ASCII that can be printed, but no quotation mark and no
-- backslash.
unfoldable pub is_plain : Bytes → Bool
is_plain [] = true
is_plain (c ∷ s) = leb 32 c && (ltb c 127 && (not (c == b'"') && (not (c == b'\\') && is_plain s)))

-- What the library's manual says of its calls: the text of an object is parsed back to it, it has
-- no zero byte, and the members of an object are those that were put into it. `<<` prints a number
-- in decimal, and a text in quotation marks.
pub record JsonLaws (lib : JsonLibrary) : Type 0 where
  pub parse-dump : (js : lib.Json) (s : Bytes) → lib.dump js ≡ some s → lib.parse s ≡ some js
  pub c_str-dump : (js : lib.Json) (s : Bytes) → lib.dump js ≡ some s → c_str s ≡ s
  pub get_int-object :
      (fields : List (Bytes × Value)) (key : Bytes) (i : ℤ)
      → find key fields ≡ some (number i)
      → lib.get_int key (lib.object fields) ≡ some i
  pub shown-number :
      (fields : List (Bytes × Value)) (key : Bytes) (i : ℤ)
      → find key fields ≡ some (number i)
      → lib.shown key (lib.object fields) ≡ some (to_string i)
  pub shown-text :
      (fields : List (Bytes × Value)) (key s : Bytes)
      → find key fields ≡ some (text s)
      → is_plain s ≡ true
      → lib.shown key (lib.object fields) ≡ some (b'"' ∷ s ++ (b'"' ∷ []))
