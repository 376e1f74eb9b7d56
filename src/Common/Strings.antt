-- ===== src/Common/Strings.antt =====
-- What the sources use of `std::string`: searches, numbers in decimal, and lines.
pub mod Decimal
pub mod Cut
pub mod Atoi
use Prim.Native.Nat.{ℕ, zero, suc, ◌+◌, ◌-◌, ◌*◌, ◌%◌, ◌^◌, ◌≤◌, ◌<◌}
use mathlib.Core.Path.{◌≡◌, refl, ap}
use mathlib.Core.Logic.{◌≢◌}
use mathlib.Core.Bool.{Bool, true, false, ◌&&◌, ◌||◌}
use mathlib.Core.List.{List, [], ◌∷◌, ◌++◌}
use mathlib.Core.Option.{Option, none, some}
use native.Mathlib.Omega.{arith}
use mprpc_main.Common.Tests.{ltb, leb, ◌==◌, if◌then◌else◌}
use mprpc_main.Common.Lists.{length, take, drop, take-append, drop-append}
use mprpc_main.Common.Words.{ℤ, pos, negsuc}
use mprpc_main.Common.Maps.{Bytes}

abbrev pub later : Option ℕ → Option ℕ
later none = none
later (some i) = some (suc i)

-- `s.find(c)`: the index of the first `c`.
unfoldable pub find_char : ℕ → Bytes → Option ℕ
find_char c [] = none
find_char c (x ∷ s) = if x == c then some 0 else later (find_char c s)

-- `s.find_first_not_of(c)` and `s.find_last_not_of(c)`.
unfoldable pub find_first_not_of : ℕ → Bytes → Option ℕ
find_first_not_of c [] = none
find_first_not_of c (x ∷ s) = if x == c then later (find_first_not_of c s) else some 0

unfoldable pub find_last_not_of : ℕ → Bytes → Option ℕ
find_last_not_of c [] = none
find_last_not_of c (x ∷ s) = elim (find_last_not_of c s) [
  | some i ↦ some (suc i)
  | none ↦ if x == c then none else some 0
]

-- `s.substr(pos, n)`, at a position in the string.
abbrev pub substr : ℕ → ℕ → Bytes → Bytes
substr i n s = take n (drop i s)

-- No byte of the text is `c`.
abbrev pub Lacks : ℕ → Bytes → Type 0
Lacks c [] = Unit {0}
Lacks c (x ∷ s) = (x ≢ c) × Lacks c s

pub find_char-append :
    (c : ℕ) (s rest : Bytes) → Lacks c s → find_char c (s ++ c ∷ rest) ≡ some (length s)
unfolding find_char
find_char-append c [] rest h = ground arith
find_char-append c (x ∷ s) rest h = ground (arith, find_char-append c s rest h.1)

unfoldable pub is_space : ℕ → Bool
is_space c = (c == 32) || (leb 9 c && leb c 13)

unfoldable pub is_digit : ℕ → Bool
is_digit c = leb b'0' c && leb c b'9'

-- The digits at the front, read on from `n`; the flag says that there was one.
digits : Bytes → ℕ → Bool → Option ℕ
unfolding is_digit
digits [] n seen = if seen then some n else none
digits (c ∷ s) n seen = elim (is_digit c) [
  | true ↦ digits s (n * 10 + (c - b'0')) true
  | false ↦ if seen then some n else none
]

in_range : Bool → Option ℕ → Option ℤ
in_range minus none = none
in_range false (some n) = if ltb n (2 ^ 31) then some (pos n) else none
in_range true (some zero) = some (pos 0)
in_range true (some (suc n)) = if ltb n (2 ^ 31) then some (negsuc n) else none

signed : Bytes → Option ℤ
unfolding digits in_range
signed [] = none
signed (c ∷ s) =
    if c == b'-'
    then in_range true (digits s 0 false)
    else if c == b'+'
    then in_range false (digits s 0 false)
    else in_range false (digits (c ∷ s) 0 false)

-- `std::stoi`: white space, a sign, and digits up to the first other character; `none` stands
-- for the exceptions `invalid_argument` and `out_of_range`.
unfoldable pub stoi : Bytes → Option ℤ
unfolding signed is_space
stoi [] = none
stoi (c ∷ s) = elim (is_space c) [ true ↦ stoi s | false ↦ signed (c ∷ s) ]

-- The conversion of an `int` to `uint16_t`.
unfoldable pub to_u16 : ℤ → ℕ
to_u16 (pos n) = n % 65536
to_u16 (negsuc n) = 65535 - n % 65536

-- `std::getline` up to the end of the stream: a last line may lack its newline.
unfoldable pub lines_from : Bytes → Bytes → List Bytes
lines_from line [] = elim line [ [] ↦ [] | c ∷ cs ↦ (c ∷ cs) ∷ [] ]
lines_from line (c ∷ s) =
    let ended = line ∷ lines_from [] s in
    let longer = lines_from (line ++ c ∷ []) s in if c == 10 then ended else longer

-- A C string ends before its first zero byte, where `%s` stops.
unfoldable pub c_str : Bytes → Bytes
c_str [] = []
c_str (zero ∷ s) = []
c_str (suc n ∷ s) = suc n ∷ c_str s
