-- ===== src/Chat/Client/Input.antt =====
-- What chat-main/src/client/ChatClient.cpp uses of `std::cin`: a stream that fails once stays
-- failed, since nothing clears it.
pub mod Consumes
use mprpc_main.Common.{
  ℕ, zero, suc, ◌+◌, ◌-◌, ◌*◌, ◌^◌, Bool, true, false, List, [], ◌∷◌, Bytes, ltb, leb, ◌==◌,
  if◌then◌else◌, ℤ, pos, negsuc, is_space, is_digit,
}

-- What is left to read, and whether the stream is still good.
pub record Input : Type 0 where
  pub rest : Bytes
  pub good : Bool

abbrev pub failed : Input
failed = record { rest = []; good = false }

abbrev pub at : Bytes → Input
at s = record { rest = s; good = true }

unfoldable pub skip_spaces : Bytes → Bytes
skip_spaces [] = []
skip_spaces (c ∷ s) = elim (is_space c) [ true ↦ skip_spaces s | false ↦ c ∷ s ]

-- The digits at the front, read on from `n`, and what follows them.
unfoldable pub read_digits : ℕ → Bytes → ℕ × Bytes
read_digits n [] = (n, [])
read_digits n (c ∷ s) = elim (is_digit c) [
  | true ↦ read_digits (n * 10 + (c - b'0')) s
  | false ↦ (n, c ∷ s)
]

abbrev pub opposite : ℕ → ℤ
opposite zero = pos 0
opposite (suc n) = negsuc n

-- A number that is no `int` fails, and gives the nearest one.
unfoldable pub in_int : Bool → ℕ × Bytes → ℤ × Input
in_int false (n, s) = if ltb n (2 ^ 31) then (pos n, at s) else (pos (2 ^ 31 - 1), failed)
in_int true (n, s) = if leb n (2 ^ 31) then (opposite n, at s) else (negsuc (2 ^ 31 - 1), failed)

-- Behind the sign; no digit fails, and gives 0.
unfoldable pub unsigned : Bool → Bytes → ℤ × Input
unfolding in_int read_digits
unsigned minus [] = (pos 0, failed)
unsigned minus (c ∷ s) = elim (is_digit c) [
  | true ↦ in_int minus (read_digits 0 (c ∷ s))
  | false ↦ (pos 0, failed)
]

unfoldable pub signed : Bytes → ℤ × Input
unfolding unsigned
signed [] = (pos 0, failed)
signed (c ∷ s) =
    if c == b'-'
    then unsigned true s
    else if c == b'+'
    then unsigned false s
    else unsigned false (c ∷ s)

-- `int i = 0; std::cin >> i`.
unfoldable pub read_int : Input → ℤ × Input
unfolding signed skip_spaces
read_int i = elim i.good [ true ↦ signed (skip_spaces i.rest) | false ↦ (pos 0, i) ]

-- Up to the next white space.
unfoldable pub word : Bytes → Bytes × Bytes
word [] = ([], [])
word (c ∷ s) = elim (is_space c) [ true ↦ ([], c ∷ s) | false ↦ (c ∷ (word s).0, (word s).1) ]

unfoldable pub word_of : Bytes → Bytes × Input
unfolding word
word_of [] = ([], failed)
word_of (c ∷ s) = ((word (c ∷ s)).0, at (word (c ∷ s)).1)

-- `std::string s; std::cin >> s`.
unfoldable pub read_word : Input → Bytes × Input
unfolding word_of skip_spaces
read_word i = elim i.good [ true ↦ word_of (skip_spaces i.rest) | false ↦ ([], i) ]

-- Up to the next newline, which is dropped.
unfoldable pub line : Bytes → Bytes × Bytes
line [] = ([], [])
line (c ∷ s) = if c == 10 then ([], s) else (c ∷ (line s).0, (line s).1)

unfoldable pub line_of : Bytes → Bytes × Input
unfolding line
line_of [] = ([], failed)
line_of (c ∷ s) = ((line (c ∷ s)).0, at (line (c ∷ s)).1)

-- `std::string s; std::getline(std::cin, s)`.
unfoldable pub get_line : Input → Bytes × Input
unfolding line_of
get_line i = elim i.good [ true ↦ line_of i.rest | false ↦ ([], i) ]

unfoldable pub after_char : Bytes → Input
after_char [] = failed
after_char (c ∷ s) = at s

-- `std::cin.get()`.
unfoldable pub get_char : Input → Input
unfolding after_char
get_char i = elim i.good [ true ↦ after_char i.rest | false ↦ i ]
