-- ===== src/Chat/Client/Input/Consumes.antt =====
-- How much a read takes from `std::cin`.
use mprpc_main.Common.{
  ℕ, zero, suc, ◌+◌, ◌-◌, ◌*◌, ◌≤◌, ◌≡◌, refl, arith, Bool, true, false, [], ◌∷◌, Bytes, length,
  ◌==◌, is_digit, Bool-cases, inl, inr, ℤ, pos,
}
use mprpc_main.Common.Strings.Decimal.{IsInt}
use mprpc_main.Chat.Client.Input.{
  Input, failed, skip_spaces, read_digits, in_int, unsigned, signed, read_int, word, word_of,
  read_word, line, line_of, get_line, after_char, get_char,
}

-- What is left to read, and the end of the input; nothing on a stream that has failed.
unfoldable pub size : Input → ℕ
size i = elim i.good [ true ↦ suc (length i.rest) | false ↦ 0 ]

skip_spaces_le : (s : Bytes) → length (skip_spaces s) ≤ length s
unfolding skip_spaces
skip_spaces_le [] = omega arith
skip_spaces_le (c ∷ s) = ground (arith, skip_spaces_le s)

read_digits_le : (n : ℕ) (s : Bytes) → length (read_digits n s).1 ≤ length s
unfolding read_digits
read_digits_le n [] = omega arith
read_digits_le n (c ∷ s) = ground (arith, read_digits_le (n * 10 + (c - b'0')) s)

in_int_le : (minus : Bool) (r : ℕ × Bytes) → size (in_int minus r).1 ≤ suc (length r.1)
unfolding in_int size
in_int_le false (n, s) = ground arith
in_int_le true (n, s) = ground arith

read_digits_lt :
    (c : ℕ) (s : Bytes)
    → is_digit c ≡ true
    → suc (length (read_digits 0 (c ∷ s)).1) ≤ suc (length s)
unfolding read_digits
read_digits_lt c s h = rw (h, length) (ground (arith, read_digits_le (0 * 10 + (c - b'0')) s))

size-elim_le :
    (b : Bool) (x y : ℤ × Input) (n : ℕ)
    → (b ≡ true → size x.1 ≤ n)
    → size y.1 ≤ n
    → size (elim b as (λ _. ℤ × Input) [ true ↦ x | false ↦ y ]).1 ≤ n
size-elim_le true x y n hx hy = hx refl
size-elim_le false x y n hx hy = hy

unsigned_le : (minus : Bool) (s : Bytes) → size (unsigned minus s).1 ≤ length s
unfolding unsigned size
unsigned_le minus [] = omega arith
unsigned_le minus (c ∷ s) =
    size-elim_le (is_digit c) (in_int minus (read_digits 0 (c ∷ s))) (pos 0, failed)
      (suc (length s))
      (λ h. omega (arith, in_int_le minus (read_digits 0 (c ∷ s)), read_digits_lt c s h))
      (omega arith)

signed_le : (s : Bytes) → size (signed s).1 ≤ length s
unfolding signed size
signed_le [] = omega arith
signed_le (c ∷ s) =
    ground (arith, unsigned_le true s, unsigned_le false s, unsigned_le false (c ∷ s))

word_le : (s : Bytes) → length (word s).1 ≤ length s
unfolding word
word_le [] = omega arith
word_le (c ∷ s) = ground (arith, word_le s)

line_lt : (c : ℕ) (s : Bytes) → suc (length (line (c ∷ s)).1) ≤ suc (length s)
unfolding line
line_lt c [] = ground arith
line_lt c (d ∷ s) = ground (arith, line_lt d s)

word_of_le : (s : Bytes) → size (word_of s).1 ≤ suc (length s)
unfolding word_of size
word_of_le [] = omega arith
word_of_le (c ∷ s) = omega (arith, word_le (c ∷ s))

line_of_le : (s : Bytes) → size (line_of s).1 ≤ length s
unfolding line_of size
line_of_le [] = omega arith
line_of_le (c ∷ s) = omega (arith, line_lt c s)

after_char_le : (s : Bytes) → size (after_char s) ≤ length s
unfolding after_char size
after_char_le [] = omega arith
after_char_le (c ∷ s) = omega arith

-- A number and a line take what they read, so that less is left.
pub size-read_int : (i : Input) → size (read_int i).1 ≤ size i - 1
unfolding read_int size
size-read_int i = ground (arith, skip_spaces_le i.rest, signed_le (skip_spaces i.rest))

pub size-read_word : (i : Input) → size (read_word i).1 ≤ size i
unfolding read_word size
size-read_word i = ground (arith, skip_spaces_le i.rest, word_of_le (skip_spaces i.rest))

pub size-get_line : (i : Input) → size (get_line i).1 ≤ size i - 1
unfolding get_line size
size-get_line i = ground (arith, line_of_le i.rest)

pub size-get_char : (i : Input) → size (get_char i) ≤ size i
unfolding get_char size
size-get_char i = ground (arith, after_char_le i.rest)

-- A failed stream is left as it is.
pub good-size : (i : Input) → size i ≡ 0 → i.good ≡ false
unfolding size
good-size i h = ground arith

pub size-failed : (i : Input) → i.good ≡ false → size i ≡ 0
unfolding size
size-failed i h = rw h (refl)

-- What is read is an `int`.
in_int-IsInt : (minus : Bool) (r : ℕ × Bytes) → IsInt (in_int minus r).0
unfolding in_int
in_int-IsInt false (n, s) = ground arith
in_int-IsInt true (zero, s) = omega arith
in_int-IsInt true (suc n, s) = ground arith

unsigned-IsInt : (minus : Bool) (s : Bytes) → IsInt (unsigned minus s).0
unfolding unsigned
unsigned-IsInt minus [] = omega arith
unsigned-IsInt minus (c ∷ s) = elim (Bool-cases (is_digit c)) [
  | inl h ↦ rw (h, IsInt) (in_int-IsInt minus (read_digits 0 (c ∷ s)))
  | inr h ↦ rw (h, IsInt) (omega arith)
]

signed-IsInt : (s : Bytes) → IsInt (signed s).0
unfolding signed
signed-IsInt [] = omega arith
signed-IsInt (c ∷ s) = elim (Bool-cases (c == b'-')) [
  | inl m ↦ rw m (unsigned-IsInt true s)
  | inr m ↦ elim (Bool-cases (c == b'+')) [
    | inl p ↦ rw (m, p) (unsigned-IsInt false s)
    | inr p ↦ rw (m, p) (unsigned-IsInt false (c ∷ s))
  ]
]

pub read_int-IsInt : (i : Input) → IsInt (read_int i).0
unfolding read_int
read_int-IsInt i = elim (Bool-cases i.good) [
  | inl g ↦ rw g (signed-IsInt (skip_spaces i.rest))
  | inr g ↦ rw g (omega arith)
]
