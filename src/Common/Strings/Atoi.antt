-- ===== src/Common/Strings/Atoi.antt =====
-- `std::atoi`, as far as it is defined, beside `std::stoi`.
use mprpc_main.Common.Tests.{◌==◌, if◌then◌else◌, Bool-cases}
use mprpc_main.Common.Maps.{Bytes}
use mprpc_main.Common.Words.{ℤ}
use mprpc_main.Common.Strings.{digits, in_range, signed, is_space, is_digit, stoi, c_str}
use Prim.Native.Nat.{ℕ, zero, suc, ◌+◌, ◌-◌, ◌*◌}
use mathlib.Core.Path.{◌≡◌, refl, ◌∙◌}
use mathlib.Core.Logic.{inl, inr}
use mathlib.Core.Bool.{Bool, true, false}
use mathlib.Core.List.{[], ◌∷◌}
use mathlib.Core.Option.{Option, none, some}
use native.Mathlib.Omega.{arith}

-- No digit counts as 0.
abbrev or_zero : Option ℕ → Option ℕ
or_zero none = some 0
or_zero (some n) = some n

atoi_signed : Bytes → Option ℤ
unfolding digits in_range
atoi_signed [] = in_range false (some 0)
atoi_signed (c ∷ s) =
    if c == b'-'
    then in_range true (or_zero (digits s 0 false))
    else if c == b'+'
    then in_range false (or_zero (digits s 0 false))
    else in_range false (or_zero (digits (c ∷ s) 0 false))

-- `std::atoi`: `none` is a number that no `int` holds, where it is undefined.
unfoldable pub atoi : Bytes → Option ℤ
unfolding atoi_signed is_space
atoi [] = atoi_signed []
atoi (c ∷ s) = elim (is_space c) [ true ↦ atoi s | false ↦ atoi_signed (c ∷ s) ]

in_range-or_zero :
    (minus : Bool) (o : Option ℕ) (n : ℤ)
    → in_range minus o ≡ some n
    → in_range minus (or_zero o) ≡ some n
unfolding in_range
in_range-or_zero minus none n e = cc
in_range-or_zero minus (some k) n e = e

signed-atoi_signed : (s : Bytes) (n : ℤ) → signed s ≡ some n → atoi_signed s ≡ some n
unfolding signed atoi_signed
signed-atoi_signed [] n e = cc
signed-atoi_signed (c ∷ s) n e = ground (
  arith,
  in_range-or_zero true (digits s 0 false) n,
  in_range-or_zero false (digits s 0 false) n,
  in_range-or_zero false (digits (c ∷ s) 0 false) n,
)

-- Where `stoi` gives a number, `atoi` gives the same.
pub atoi-stoi : (s : Bytes) (n : ℤ) → stoi s ≡ some n → atoi s ≡ some n
unfolding stoi atoi
atoi-stoi [] n e = cc
atoi-stoi (c ∷ s) n e = elim (Bool-cases (is_space c)) [
  | inl sp ↦ ground (arith, atoi-stoi s n)
  | inr sp ↦ ground (arith, signed-atoi_signed (c ∷ s) n)
]

-- A zero byte ends the digits as the end of the string does.
digits-c_str : (s : Bytes) (n : ℕ) (seen : Bool) → digits (c_str s) n seen ≡ digits s n seen
unfolding digits c_str is_digit
digits-c_str [] n seen = refl
digits-c_str (zero ∷ s) n seen = refl
digits-c_str (suc k ∷ s) n seen = elim (Bool-cases (is_digit (suc k))) [
  | inl d ↦ ground (arith, digits-c_str s (n * 10 + (suc k - b'0')) true)
  | inr d ↦ ground arith
]

signed-c_str : (s : Bytes) → signed (c_str s) ≡ signed s
unfolding signed c_str
signed-c_str [] = refl
signed-c_str (zero ∷ s) = refl
signed-c_str (suc k ∷ s) = ground (arith, digits-c_str s 0 false, digits-c_str (suc k ∷ s) 0 false)

stoi-c_str : (s : Bytes) → stoi (c_str s) ≡ stoi s
unfolding stoi c_str is_space
stoi-c_str [] = refl
stoi-c_str (zero ∷ s) = refl
stoi-c_str (suc k ∷ s) = elim (Bool-cases (is_space (suc k))) [
  | inl sp ↦ ground (arith, stoi-c_str s)
  | inr sp ↦ ground (arith, signed-c_str (suc k ∷ s))
]

-- So `atoi` of the C string agrees with `stoi` of the whole string.
pub atoi-c_str : (s : Bytes) (n : ℤ) → stoi s ≡ some n → atoi (c_str s) ≡ some n
atoi-c_str s n e = atoi-stoi (c_str s) n (stoi-c_str s ∙ e)
