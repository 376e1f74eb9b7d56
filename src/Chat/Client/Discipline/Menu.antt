-- ===== src/Chat/Client/Discipline/Menu.antt =====
-- The menu and the whole run keep the discipline, and end unless the input has failed.
use mprpc_main.Common.{
  ℕ, zero, suc, ◌≤◌, ◌≡◌, refl, sym, subst, ap, ◌∙◌, [], bytes_eq, arith, Bool, true, false, Bytes,
  ℤ, pos, negsuc,
}
use mprpc_main.Chat.Json.{JsonLibrary}
use mprpc_main.Chat.Client.Input.{Input, skip_spaces, signed, line_of, read_int, get_line}
use mprpc_main.Chat.Client.Input.Consumes.{size, size-read_int, good-size}
use mprpc_main.Chat.Client.State.{
  Kernel, Client, Outcome, ended, out_of_fuel, ◌>>=◌, with_input, new, connect_server,
}
use mprpc_main.Chat.Client.Commands.{perform}
use mprpc_main.Chat.Client.Session.{command_loop, choose, main_menu, to_menu, run}
use mprpc_main.Chat.Client.Discipline.{
  AtMenu, Closed, After, settled, starved, After-bind, After-mono, Connects, up, down, leave-Closed,
  connect_server-Connects,
}
use mprpc_main.Chat.Client.Discipline.Session.{login-After, reg-After}

module _ (kernel : Kernel) (lib : JsonLibrary) where
  choose-After :
      (fuel : ℕ) (loop : Client → Outcome) (choice : ℤ) (w : Client)
      → AtMenu w
      → size w.input ≤ fuel
      → ((w' : Client)
          → AtMenu w'
          → size w'.input ≤ size w.input
          → After (size w.input) Closed (loop w'))
      → After (size w.input) Closed (choose kernel lib fuel loop choice w)
  unfolding choose
  choose-After fuel loop (pos zero) w a le h = h w a (omega arith)
  choose-After fuel loop (pos (suc zero)) w a le h =
      After-bind (login-After kernel lib fuel w a le) h
  choose-After fuel loop (pos (suc (suc zero))) w a le h = After-bind (reg-After kernel lib w a) h
  choose-After fuel loop (pos (suc (suc (suc zero)))) w (s, l, r) le h =
      let (c, le') = leave-Closed (record w { logged_in = false }) s refl in settled c le'
  choose-After fuel loop (pos (suc (suc (suc (suc n))))) w a le h = h w a (omega arith)
  choose-After fuel loop (negsuc n) w a le h = h w a (omega arith)

  -- The menu, on at least as much fuel as there is input.
  pub main_menu-After :
      (fuel : ℕ) (w : Client)
      → AtMenu w
      → size w.input ≤ fuel
      → After (size w.input) Closed (main_menu kernel lib fuel w)
  unfolding main_menu
  main_menu-After zero w (s, l, r) le = starved (good-size w.input (omega arith)) s.0
  main_menu-After (suc fuel) w a le =
      let i = (read_int w.input).1 in
      let taken = size-read_int w.input in
      After-mono (omega arith) (λ _ p. p)
        (choose-After fuel (main_menu kernel lib fuel) (read_int w.input).0 (with_input i w) a
          (omega arith)
          (λ w' a' le'. After-mono le' (λ _ p. p) (main_menu-After fuel w' a' (omega arith))))

read_int-failed : (i : Input) → i.good ≡ false → read_int i ≡ (pos 0, i)
unfolding read_int
read_int-failed i h =
    subst
      (λ b.
        elim b as (λ _. ℤ × Input) [ true ↦ signed (skip_spaces i.rest) | false ↦ (pos 0, i) ]
        ≡ (pos 0, i))
      (sym h) refl

get_line-failed : (i : Input) → i.good ≡ false → get_line i ≡ ([], i)
unfolding get_line
get_line-failed i h =
    subst
      (λ b. elim b as (λ _. Bytes × Input) [ true ↦ line_of i.rest | false ↦ ([], i) ] ≡ ([], i))
      (sym h) refl

main_menu-endless :
    (kernel : Kernel) (lib : JsonLibrary) (fuel : ℕ) (w : Client)
    → w.input.good ≡ false
    → main_menu kernel lib fuel w ≡ out_of_fuel w
unfolding main_menu choose
main_menu-endless kernel lib zero w h = refl
main_menu-endless kernel lib (suc fuel) w h =
    ap (λ r. choose kernel lib fuel (main_menu kernel lib fuel) r.0 (with_input r.1 w))
      (read_int-failed w.input h)
    ∙ main_menu-endless kernel lib fuel w h

command_loop-endless :
    (kernel : Kernel) (lib : JsonLibrary) (fuel : ℕ) (w : Client)
    → w.input.good ≡ false
    → w.logged_in ≡ true
    → command_loop kernel lib fuel w ≡ out_of_fuel w
unfolding command_loop perform bytes_eq
command_loop-endless kernel lib zero w h l = refl
command_loop-endless kernel lib (suc fuel) w h l =
    subst
      (λ b.
        elim b as (λ _. Outcome) [
          | true ↦
              perform kernel lib (get_line w.input).0 (with_input (get_line w.input).1 w)
              >>= command_loop kernel lib fuel
          | false ↦ ended w
        ]
        ≡ out_of_fuel w)
      (sym l)
      (ap (λ r. perform kernel lib r.0 (with_input r.1 w) >>= command_loop kernel lib fuel)
          (get_line-failed w.input h)
        ∙ command_loop-endless kernel lib fuel w h l)

-- Once the input has failed, the menu is never left, with no action and whatever the kernel
-- answers, and neither is the loop on the commands of a user that is logged in.
pub menu-endless :
    (kernel : Kernel) (lib : JsonLibrary) (fuel : ℕ) (w : Client)
    → w.input.good ≡ false
    → (main_menu kernel lib fuel w ≡ out_of_fuel w)
      × (command_loop kernel lib fuel (record w { logged_in = true })
          ≡ out_of_fuel (record w { logged_in = true }))
menu-endless kernel lib fuel w h = (
  main_menu-endless kernel lib fuel w h,
  command_loop-endless kernel lib fuel (record w { logged_in = true }) h refl,
)

-- A run of a new client on fuel for all of its input: it returns with its descriptor closed and its
-- reader joined, or it is ended by an exception, or it is still in a loop and its input has failed.
-- On the way, one descriptor at a time was used and closed, and one reader at a time was started on
-- it and joined.
pub run-Closed :
    (kernel : Kernel) (lib : JsonLibrary) (fuel : ℕ) (ip : Bytes) (port : ℕ) (input : Input)
    → size input ≤ fuel
    → After (size input) Closed (run kernel lib fuel ip port (new input))
unfolding run new to_menu
run-Closed kernel lib fuel ip port input le =
    connected
      (connect_server kernel ip port (record (new input) { server_ip = ip; server_port = port }))
      (connect_server-Connects kernel ip port
        (record (new input) { server_ip = ip; server_port = port }) ((tt, refl, refl), refl, refl)
        refl)
  where
    connected :
        (r : Bool × Client)
        → Connects (size input) r
        → After (size input) Closed (to_menu kernel lib fuel r)
    connected (true, w) (up a o le') =
        After-mono le' (λ _ p. p) (main_menu-After kernel lib fuel w a (omega arith))
    connected (false, w) (down c le') = settled c le'
