-- ===== src/Chat/Client/Discipline/Session.antt =====
-- The whole run of a client keeps the discipline, and ends unless its input has failed.
use mprpc_main.Common.{
  ℕ, zero, suc, ◌≤◌, ◌≡◌, ◌≢◌, refl, sym, subst, arith, Bool, true, false, Option, none, some, List,
  Bytes, codes, inl, inr, ℤ, pos, negsuc,
}
use mprpc_main.Chat.Json.{JsonLibrary, Value}
use mprpc_main.Chat.Client.Input.{read_int, read_word, get_char, get_line}
use mprpc_main.Chat.Client.Input.Consumes.{
  size, size-read_int, size-read_word, size-get_line, size-get_char, good-size,
}
use mprpc_main.Chat.Client.State.{
  received, Kernel, Client, Outcome, ended, ◌>>=◌, with_input, need, log, sent, connect_server,
  join_reader, join_if,
}
use mprpc_main.Chat.Client.Display.{show_current_user_data}
use mprpc_main.Chat.Client.Commands.{request, answer, perform}
use mprpc_main.Chat.Client.Session.{
  command_loop, if_connected, on_connection, accepted, login_answered, log_in, login, reg_answered,
  register, reg, show_lines, start_reader, start_session,
}
use mprpc_main.Chat.Client.Discipline.{
  Sane, AtMenu, InSession, After, settled, broke, starved, After-bind, After-mono, Connects, up,
  down, sent-Sane, received-Sane, connect_server-Connects,
}
use mprpc_main.Chat.Client.Discipline.Commands.{Either, request-After, answer-After, perform-After}

module _ (kernel : Kernel) (lib : JsonLibrary) where
  Either-Sane : (w : Client) → Either w → Sane w
  Either-Sane w (inl h) = h.0
  Either-Sane w (inr h) = h.0

  -- The commands end at the menu, with an exception, or in the loop on a failed input.
  command_loop-After :
      (fuel : ℕ) (w : Client)
      → Either w
      → size w.input ≤ fuel
      → After (size w.input) AtMenu (command_loop kernel lib fuel w)
  unfolding command_loop
  command_loop-After zero w e le = starved (good-size w.input (omega arith)) (Either-Sane w e).0
  command_loop-After (suc fuel) w (inr (s, l, r)) le =
      subst
        (λ b. After (size w.input) AtMenu (elim b as (λ _. Outcome) [
          | true ↦
              perform kernel lib (get_line w.input).0 (with_input (get_line w.input).1 w)
              >>= command_loop kernel lib fuel
          | false ↦ ended w
        ]))
        (sym l) (settled {w = w} (s, l, r) (omega arith))
  command_loop-After (suc fuel) w (inl h) le =
      let i = (get_line w.input).1 in
      let taken = size-get_line w.input in
      subst
        (λ b. After (size w.input) AtMenu (elim b as (λ _. Outcome) [
          | true ↦
              perform kernel lib (get_line w.input).0 (with_input i w)
              >>= command_loop kernel lib fuel
          | false ↦ ended w
        ]))
        (sym h.1)
        (After-bind (perform-After kernel lib (get_line w.input).0 (with_input i w) h) (λ w' e le'.
          After-mono (omega arith) (λ _ p. p) (command_loop-After fuel w' e (omega arith))))

  need-After {ℓ} :
      {A : Type ℓ} {n : ℕ} {P : Client → Type 0} (o : Option A) (k : A → Outcome)
      → ((a : A) → After n P (k a))
      → After n P (need o k)
  need-After none k h = broke
  need-After (some a) k h = h a

  join_if-idle : (b : Bool) (w : Client) → b ≡ false → join_if b w ≡ w
  unfolding join_if
  join_if-idle false w e = refl
  join_if-idle true w e = cc

  join_reader-idle : (w : Client) → w.reading ≡ false → join_reader w ≡ w
  unfolding join_reader
  join_reader-idle w e = join_if-idle w.reading w e

  -- A session starts with a reader on the open descriptor.
  start_session-InSession :
      (id : ℤ) (name : Bytes) (lines : List Bytes) (w : Client)
      → AtMenu w
      → w.fd ≢ none
      → InSession (start_session kernel lib id name lines w)
        × (size (start_session kernel lib id name lines w).input ≤ size w.input)
  unfolding start_session
  start_session-InSession id name lines w ((d, h, r), l, g) o =
      let user = record w { logged_in = true; user_id = id; user_name = name } in
      subst
        (λ j.
          InSession (with_input (get_char j.input) (start_reader kernel lib j))
          × (size (get_char j.input) ≤ size w.input))
        (sym (join_reader-idle (show_lines kernel lib lines user) g))
        (((((λ e. o (cc)), (cc), d), h, refl), refl, refl, o), size-get_char w.input)

  accepted-After :
      (fuel : ℕ) (js : lib.Json) (w : Client)
      → AtMenu w
      → w.fd ≢ none
      → size w.input ≤ fuel
      → After (size w.input) AtMenu (accepted kernel lib fuel js w)
  unfolding accepted
  accepted-After fuel js w a o le = need-After (lib.get_int (codes "id") js) _ (λ id.
      need-After (lib.get_string (codes "name") js) _ (λ name.
        need-After (show_current_user_data lib js) _ (λ lines.
          let (s, le') = start_session-InSession id name lines w a o in
          After-mono le' (λ _ p. p)
            (command_loop-After fuel (start_session kernel lib id name lines w) (inl s)
              (omega arith)))))

  login_answered-After :
      (fuel : ℕ) (o : Option ℤ) (js : lib.Json) (w : Client)
      → AtMenu w
      → w.fd ≢ none
      → size w.input ≤ fuel
      → After (size w.input) AtMenu (login_answered kernel lib fuel o js w)
  unfolding login_answered
  login_answered-After fuel none js w a o le = broke
  login_answered-After fuel (some (pos zero)) js w a o le = accepted-After fuel js w a o le
  login_answered-After fuel (some (pos (suc n))) js w a o le =
      need-After (lib.shown (codes "errmsg") js) _ (λ s. settled a (omega arith))
  login_answered-After fuel (some (negsuc n)) js w a o le =
      need-After (lib.shown (codes "errmsg") js) _ (λ s. settled a (omega arith))

  reg_answered-After :
      (o : Option ℤ) (js : lib.Json) (w : Client)
      → AtMenu w
      → After (size w.input) AtMenu (reg_answered kernel lib o js w)
  unfolding reg_answered
  reg_answered-After none js w a = broke
  reg_answered-After (some (pos zero)) js w a =
      need-After (lib.shown (codes "id") js) _ (λ s. settled a (omega arith))
  reg_answered-After (some (pos (suc n))) js w a = settled a (omega arith)
  reg_answered-After (some (negsuc n)) js w a = settled a (omega arith)

  -- Either there is a connection, or the operation ends without one.
  on_connection-After :
      (k : Client → Outcome) (o : Option ℕ) (w : Client)
      → AtMenu w
      → w.fd ≡ o
      → ((w' : Client)
          → AtMenu w'
          → w'.fd ≢ none
          → size w'.input ≤ size w.input
          → After (size w.input) AtMenu (k w'))
      → After (size w.input) AtMenu (on_connection kernel lib k o w)
  unfolding on_connection
  on_connection-After k (some n) w a e h = h w a (λ f. cc) (omega arith)
  on_connection-After k none w a e h =
      connected (connect_server kernel w.server_ip w.server_port w)
        (connect_server-Connects kernel w.server_ip w.server_port w a e)
    where
      connected :
          (r : Bool × Client)
          → Connects (size w.input) r
          → After (size w.input) AtMenu (if_connected kernel lib k r)
      connected (true, w') (up a' o' le) = h w' a' o' le
      connected (false, w') (down c le) = settled c.0 le

  -- A request from the menu, and what follows its answer.
  exchange-After :
      (fields : List (Bytes × Value)) (room : ℕ) (k : lib.Json → Client → Outcome) (w : Client)
      → AtMenu w
      → w.fd ≢ none
      → ((js : lib.Json) (w' : Client)
          → AtMenu w'
          → w'.fd ≢ none
          → size w'.input ≤ size w.input
          → After (size w.input) AtMenu (k js w'))
      → After (size w.input) AtMenu (request kernel lib fields (answer kernel lib room k) w)
  exchange-After fields room k w (s, l, r) o h =
      request-After kernel lib fields (answer kernel lib room k) w
        (λ msg. (sent-Sane msg w s o, l, r))
        (λ msg.
          let asked = log (sent w.fd msg) w in
          let read_Sane = received-Sane room asked (sent-Sane msg w s o) o in
          answer-After kernel lib room k asked (read_Sane, l, r)
            (λ js. h js (log (received w.fd room) asked) (read_Sane, l, r) o (omega arith))
            (omega arith))
        (omega arith)

  log_in-After :
      (fuel : ℕ) (w : Client)
      → AtMenu w
      → w.fd ≢ none
      → size w.input ≤ fuel
      → After (size w.input) AtMenu (log_in kernel lib fuel w)
  unfolding log_in
  log_in-After fuel w a o le =
      let i = (read_int w.input).1 in
      let j = (read_word i).1 in
      let le' : size j ≤ size w.input = omega (arith, size-read_int w.input, size-read_word i) in
      After-mono le' (λ _ p. p)
        (exchange-After _ 4096 _ (with_input j w) a o (λ js w' a' o' le''.
          After-mono le'' (λ _ p. p)
            (login_answered-After fuel (lib.get_int (codes "errno") js) js w' a' o' (omega arith))))

  register-After :
      (w : Client) → AtMenu w → w.fd ≢ none → After (size w.input) AtMenu (register kernel lib w)
  unfolding register
  register-After w a o =
      let i = (read_word w.input).1 in
      let j = (read_word i).1 in
      After-mono (omega (arith, size-read_word w.input, size-read_word i)) (λ _ p. p)
        (exchange-After _ 1024 _ (with_input j w) a o (λ js w' a' o' le.
          After-mono le (λ _ p. p) (reg_answered-After (lib.get_int (codes "errno") js) js w' a')))

  pub login-After :
      (fuel : ℕ) (w : Client)
      → AtMenu w
      → size w.input ≤ fuel
      → After (size w.input) AtMenu (login kernel lib fuel w)
  unfolding login
  login-After fuel w a le =
      on_connection-After (log_in kernel lib fuel) w.fd w a refl
        (λ w' a' o' le'. After-mono le' (λ _ p. p) (log_in-After fuel w' a' o' (omega arith)))

  pub reg-After : (w : Client) → AtMenu w → After (size w.input) AtMenu (reg kernel lib w)
  unfolding reg
  reg-After w a =
      on_connection-After (register kernel lib) w.fd w a refl
        (λ w' a' o' le'. After-mono le' (λ _ p. p) (register-After w' a' o'))
