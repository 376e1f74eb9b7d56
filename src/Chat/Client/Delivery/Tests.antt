-- ===== src/Chat/Client/Delivery/Tests.antt =====
-- A message of chat-main/src/client/ChatClient.cpp from its author to its reader, with a kernel, a
-- data base and a JSON library made for it.
use mprpc_main.Common.{
  ℕ, ap, ap₂, negsuc, ==_iff, sym, subst, ◌∙◌, ◌+◌, ◌-◌, ◌%◌, ◌≤◌, ◌≡◌, ◌≢◌, refl, arith, Bool,
  true, false, ◌&&◌, ◌==◌, Option, none, some, List, [], ◌∷◌, ◌++◌, Bytes, codes, bytes_eq,
  bytes_eq_iff, bytes_key, int_key, find, ℤ, pos, length, ap, negsuc, Bool-cases, inl, inr,
  replicate, if◌then◌else◌,
}
use mprpc_main.Chat.Db.{MySql, ok, c_str}
use mprpc_main.Chat.Json.{JsonLibrary, JsonLaws, Value, number, text, texts, is_plain}
use mprpc_main.Common.Strings.Decimal.{to_string}
use mprpc_main.Chat.Service.{ChatService}
use mprpc_main.Chat.Service.Routing.{Routed}
use mprpc_main.Chat.Service.Handlers.{on_message}
use mprpc_main.Chat.Client.Input.{
  at, read_int, get_line, get_char, signed, skip_spaces, unsigned, in_int, read_digits, line_of,
  line, after_char,
}
use mprpc_main.Chat.Client.State.{Kernel, Client, ended, new, log, sent}
use mprpc_main.Chat.Client.Commands.{one_chat, one_chat_fields, read_number}
use mprpc_main.Chat.Client.Session.{message_lines}
use mprpc_main.Chat.Client.Delivery.{said, after_typing, one_chat-delivered}
use mprpc_main.Muduo.Buffer.{Buffer, retrieve_all}

abbrev willing : Kernel
willing = record {
  socket = λ t. some 5;
  connect = λ t n ip port. true;
  write = λ t n msg. true;
  read = λ t n room. some [];
}

-- A data base with one user, who is online.
abbrev one_user : MySql
one_user = record {
  Server = List Bytes;
  connect = λ s. (true, s);
  query = λ sql s. (true, sql ∷ s);
  rows = λ s. some ((codes "5" ∷ codes "ann" ∷ codes "pw" ∷ codes "online" ∷ []) ∷ []);
  insert_id = λ s. pos 1;
}

abbrev digit : Bytes → ℤ
digit [] = pos 0
digit (c ∷ s) = pos ((c - 48) % 10)

abbrev chosen : List (Bytes × Value)
chosen = one_chat_fields (pos 6) (pos 5) (codes "hi")

abbrev is_text : Bytes → Value → Bool
is_text s (text t) = bytes_eq t s
is_text s _ = false

abbrev is_number : ℕ → Value → Bool
is_number n (number (pos m)) = m == n
is_number n _ = false

and_both : (a b : Bool) → (a && b) ≡ true → (a ≡ true) × (b ≡ true)
and_both true b h = (refl, h)
and_both false b h = cc

text_eq : (s : Bytes) (v : Value) → is_text s v ≡ true → v ≡ text s
text_eq s (text t) h = ap text ((bytes_eq_iff t s).0 h)
text_eq s (number i) h = cc
text_eq s (texts ss) h = cc

number_eq : (n : ℕ) (v : Value) → is_number n v ≡ true → v ≡ number (pos n)
number_eq n (number (pos m)) h = ap (λ i. number (pos i)) ((==_iff m n).0 h)
number_eq n (number (negsuc m)) h = cc
number_eq n (text t) h = cc
number_eq n (texts ss) h = cc

abbrev is_field : Bytes → (Value → Bool) → Bytes × Value → Bool
is_field key p (k, v) = bytes_eq k key && p v

field_eq :
    (key : Bytes) (p : Value → Bool) (value : Value) (f : Bytes × Value)
    → ((v : Value) → p v ≡ true → v ≡ value)
    → is_field key p f ≡ true
    → f ≡ (key, value)
field_eq key p value (k, v) eq h =
    let (e, e') = and_both (bytes_eq k key) (p v) h in
    ap (λ x. (x, v)) ((bytes_eq_iff k key).0 e) ∙ ap (λ x. (key, x)) (eq v e')

abbrev is_chosen : List (Bytes × Value) → Bool
is_chosen (a ∷ b ∷ c ∷ d ∷ []) =
    is_field (codes "msgid") (is_number 3) a
    && (is_field (codes "id") (is_number 6) b
        && (is_field (codes "toid") (is_number 5) c
            && is_field (codes "msg") (is_text (codes "hi")) d))
is_chosen _ = false

is_chosen-eq : (js : List (Bytes × Value)) → is_chosen js ≡ true → js ≡ chosen
is_chosen-eq (a ∷ b ∷ c ∷ d ∷ []) h =
    let (ha, h1) = and_both (is_field (codes "msgid") (is_number 3) a) _ h in
    let (hb, h2) = and_both (is_field (codes "id") (is_number 6) b) _ h1 in
    let (hc, hd) = and_both (is_field (codes "toid") (is_number 5) c) _ h2 in
    ap₂ (λ x xs. x ∷ xs) (field_eq _ _ _ a (number_eq 3) ha)
      (ap₂ (λ x xs. x ∷ xs) (field_eq _ _ _ b (number_eq 6) hb)
        (ap₂ (λ x xs. x ∷ xs) (field_eq _ _ _ c (number_eq 5) hc)
          (ap (λ x. x ∷ []) (field_eq _ _ _ d (text_eq (codes "hi")) hd))))
is_chosen-eq [] h = cc
is_chosen-eq (_ ∷ []) h = cc
is_chosen-eq (_ ∷ _ ∷ []) h = cc
is_chosen-eq (_ ∷ _ ∷ _ ∷ []) h = cc
is_chosen-eq (_ ∷ _ ∷ _ ∷ _ ∷ _ ∷ _) h = cc

abbrev as_int : Option Value → Option ℤ
as_int (some (number i)) = some i
as_int _ = none

abbrev as_shown : Option Value → Option Bytes
as_shown (some (number i)) = some (to_string i)
as_shown (some (text s)) = some (b'"' ∷ s ++ (b'"' ∷ []))
as_shown _ = none

abbrev msg : Bytes
msg = codes "{}"

abbrev dump_if : Bool → Option Bytes
dump_if true = some msg
dump_if false = none

abbrev parse_if : Bool → Option (List (Bytes × Value))
parse_if true = some chosen
parse_if false = none

-- A library that has a text for one object only.
abbrev exact : JsonLibrary
exact = record {
  Json = List (Bytes × Value);
  parse = λ s. parse_if (bytes_eq s msg);
  get_int = λ key js. as_int (find key js);
  get_string = λ key js. as_shown (find key js);
  contains = λ key js. false;
  get_texts = λ key js. some [];
  shown = λ key js. as_shown (find key js);
  object = λ fields. fields;
  dump = λ js. dump_if (is_chosen js);
}

dumped : (b : Bool) (s : Bytes) → dump_if b ≡ some s → (b ≡ true) × (s ≡ msg)
dumped true s h = (refl, cc)
dumped false s h = cc

exact-JsonLaws : JsonLaws exact
unfolding c_str bytes_eq
exact-JsonLaws = record {
  parse-dump = λ js s h.
      let (e, e') = dumped (is_chosen js) s h in
      ap (λ t. parse_if (bytes_eq t msg)) e' ∙ ap some (sym (is_chosen-eq js e));
  c_str-dump = λ js s h. subst (λ t. c_str t ≡ t) (sym (dumped (is_chosen js) s h).1) refl;
  get_int-object = λ fields key i h. ap as_int h;
  shown-number = λ fields key i h. ap as_shown h;
  shown-text = λ fields key s h p. ap as_shown h;
}

-- A user with the number 6 types the number 5, and a line.
abbrev author : Client
author = record (new (at (codes "5\nhi\n"))) { fd = some 5; logged_in = true; user_id = pos 6 }

abbrev arrived : Buffer
arrived = record { buffer = replicate 8 0 ++ msg; reader_index = 8; writer_index = 10 }

abbrev service : ChatService one_user
service = record {
  user_conn_map = (pos 5, 70) ∷ [];
  redis = record { publish_context = true; subscribe_context = true; commands = [] };
  server = [];
  sent = [];
}

one_chat-delivered_example :
    (one_chat willing exact author ≡ ended (log (sent author.fd msg) (after_typing author)))
    × ((s' : ChatService one_user) × (on_message one_user digit exact 71 arrived service
          ≡ ok (s', retrieve_all arrived))
        × Routed one_user digit exact (read_number author.input).0 msg service s')
    × (message_lines willing exact msg ≡ some (said (to_string (pos 6)) (codes "\"hi\"") ∷ []))
unfolding mprpc_main.Common.is_space mprpc_main.Common.is_digit new read_number read_int signed
    skip_spaces unsigned in_int read_digits get_char after_char get_line line_of line
    mprpc_main.Common.bytes_eq is_plain
one_chat-delivered_example =
    one_chat-delivered willing exact exact-JsonLaws one_user digit author msg 71 arrived service
      refl (omega arith) (omega arith) refl refl refl refl
