-- ===== src/Chat/Client/Discipline/Commands.antt =====
-- The commands keep a session, or leave it.
use mprpc_main.Common.{
  ℕ, ◌≤◌, refl, arith, Bool, true, false, List, Bytes, codes, bytes_eq, if◌then◌else◌, ◌⊎◌, inl,
  inr, Bool-cases, Option-cases,
}
use mprpc_main.Chat.Json.{JsonLibrary, Value}
use mprpc_main.Chat.Client.Input.{Input, read_int, get_line}
use mprpc_main.Chat.Client.Input.Consumes.{size, size-read_int, size-get_line, size-get_char}
use mprpc_main.Chat.Client.State.{
  Kernel, Client, Outcome, ended, log, sent, received, write, read, write_at, read_at, text_in,
  with_input,
}
use mprpc_main.Chat.Client.Commands.{
  request, if_sent, answer, parsed, read_number, one_chat, add_friend, create_group, add_group,
  group_chat, loginout, logged_out, perform,
}
use mprpc_main.Chat.Client.Discipline.{
  InSession, AtMenu, After, settled, broke, sent-Sane, leave-Closed,
}

module _ (kernel : Kernel) (lib : JsonLibrary) {n : ℕ} {P : Client → Type 0} where
  -- A request ends as what follows it, or as the client that could not write it.
  pub request-After :
      (fields : List (Bytes × Value)) (k : Client → Outcome) (w : Client)
      → ((msg : Bytes) → P (log (sent w.fd msg) w))
      → ((msg : Bytes) → After n P (k (log (sent w.fd msg) w)))
      → size w.input ≤ n
      → After n P (request kernel lib fields k w)
  unfolding request write if_sent
  request-After fields k w p h le = elim (Option-cases (lib.dump (lib.object fields))) [
    | inl e ↦ rw e broke
    | inr (msg, e) ↦ elim (Bool-cases (write_at kernel w.fd msg w.trace)) [
      | inl b ↦ rw (e, b, if_sent) (h msg)
      | inr b ↦ rw (e, b, if_sent) (settled (p msg) le)
    ]
  ]

  -- The same, of an answer.
  pub answer-After :
      (room : ℕ) (k : lib.Json → Client → Outcome) (w : Client)
      → P (log (received w.fd room) w)
      → ((js : lib.Json) → After n P (k js (log (received w.fd room) w)))
      → size w.input ≤ n
      → After n P (answer kernel lib room k w)
  unfolding answer read parsed
  answer-After room k w p h le =
      elim (Option-cases (text_in kernel room (read_at kernel w.fd room w.trace))) [
        | inl e ↦ rw (e, parsed) (settled p le)
        | inr (s, e) ↦ elim (Option-cases (lib.parse s)) [
          | inl e' ↦ rw (e, parsed, e') broke
          | inr (js, e') ↦ rw (e, parsed, e') (h js)
        ]
      ]

-- In a session, or out of one.
abbrev pub Either : Client → Type 0
Either w = InSession w ⊎ AtMenu w

pub size-read_number : (i : Input) → size (read_number i).1 ≤ size i
unfolding read_number
size-read_number i = omega (arith, size-read_int i, size-get_char (read_int i).1)

module _ (kernel : Kernel) (lib : JsonLibrary) where
  -- A request with nothing behind it.
  ask-After :
      (fields : List (Bytes × Value)) (i : Input) (w : Client) {n : ℕ}
      → InSession w
      → size i ≤ n
      → After n Either (request kernel lib fields ended (with_input i w))
  ask-After fields i w (s, l, r, o) le =
      request-After kernel lib fields ended (with_input i w)
        (λ msg. inl (sent-Sane msg (with_input i w) s o, l, r, o))
        (λ msg. settled (inl (sent-Sane msg (with_input i w) s o, l, r, o)) le) le

  if-After :
      {n : ℕ} {P : Client → Type 0} (b : Bool) {x y : Outcome}
      → After n P x
      → After n P y
      → After n P (if b then x else y)
  if-After true hx hy = hx
  if-After false hx hy = hy

  loginout-After : (w : Client) → InSession w → After (size w.input) Either (loginout kernel lib w)
  unfolding loginout
  loginout-After w (s, l, r, o) =
      if-After w.logged_in
        (request-After kernel lib _ logged_out w (λ msg. inl (sent-Sane msg w s o, l, r, o))
          (λ msg. let (c, le) = leave-Closed _ (sent-Sane msg w s o) refl in settled (inr c.0) le)
          (omega arith))
        (settled {w = w} (inl (s, l, r, o)) (omega arith))

  one_chat-After : (w : Client) → InSession w → After (size w.input) Either (one_chat kernel lib w)
  unfolding one_chat
  one_chat-After w h =
      ask-After _ (get_line (read_number w.input).1).1 w h
        (omega (arith, size-read_number w.input, size-get_line (read_number w.input).1))

  add_friend-After :
      (w : Client) → InSession w → After (size w.input) Either (add_friend kernel lib w)
  unfolding add_friend
  add_friend-After w h = ask-After _ (read_number w.input).1 w h (size-read_number w.input)

  create_group-After :
      (w : Client) → InSession w → After (size w.input) Either (create_group kernel lib w)
  unfolding create_group
  create_group-After w h =
      ask-After _ (get_line (get_line w.input).1).1 w h
        (omega (arith, size-get_line w.input, size-get_line (get_line w.input).1))

  add_group-After :
      (w : Client) → InSession w → After (size w.input) Either (add_group kernel lib w)
  unfolding add_group
  add_group-After w h = ask-After _ (read_number w.input).1 w h (size-read_number w.input)

  group_chat-After :
      (w : Client) → InSession w → After (size w.input) Either (group_chat kernel lib w)
  unfolding group_chat
  group_chat-After w h =
      ask-After _ (get_line (read_number w.input).1).1 w h
        (omega (arith, size-read_number w.input, size-get_line (read_number w.input).1))

  -- A command that is performed in a session ends in it or at the menu, or with an exception, and
  -- reads on in the input.
  pub perform-After :
      (command : Bytes) (w : Client)
      → InSession w
      → After (size w.input) Either (perform kernel lib command w)
  unfolding perform
  perform-After command w h = if-After (bytes_eq command (codes "chat")) (one_chat-After w h) (
      if-After (bytes_eq command (codes "addfriend")) (add_friend-After w h) (
        if-After (bytes_eq command (codes "creategroup")) (create_group-After w h) (
          if-After (bytes_eq command (codes "addgroup")) (add_group-After w h) (
            if-After (bytes_eq command (codes "groupchat")) (group_chat-After w h) (
              if-After (bytes_eq command (codes "loginout")) (loginout-After w h)
                (settled {w = w} (inl h) (omega arith)))))))
