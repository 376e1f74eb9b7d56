-- ===== src/Common/Strings/Decimal.antt =====
-- `std::to_string` of an `int`, which is also `%d` of `sprintf`, and its way back by `std::stoi`.
use mprpc_main.Common.Strings.{digits, is_digit, is_space, signed, in_range, stoi}
use mprpc_main.Common.Maps.{Bytes}
use mprpc_main.Common.Lists.{length, length-append}
use mprpc_main.Common.Words.{ℤ, pos, negsuc}
use mprpc_main.Common.Tests.{ltb, if◌then◌else◌, Bool-cases, lt→ltb}
use Prim.Native.Nat.{ℕ, zero, suc, ◌+◌, ◌*◌, ◌/◌, ◌%◌, ◌^◌, ◌≤◌, ◌<◌}
use mathlib.Core.Path.{◌≡◌, refl, sym, ap, ◌∙◌}
use mathlib.Core.Logic.{inl, inr}
use mathlib.Core.Bool.{Bool, true, false}
use mathlib.Core.List.{[], ◌∷◌, ◌++◌, append_assoc, append-nil}
use mathlib.Core.Option.{some}
use native.Mathlib.Omega.{arith}

-- The digits of `n`; there are fewer rounds than `n + 1`.
unfoldable pub decimal_from : ℕ → ℕ → Bytes
decimal_from zero n = []
decimal_from (suc fuel) n =
    let rest = decimal_from fuel (n / 10) in
    if ltb n 10 then (48 + n) ∷ [] else rest ++ ((48 + n % 10) ∷ [])

unfoldable pub decimal : ℕ → Bytes
unfolding decimal_from
decimal n = decimal_from (suc n) n

unfoldable pub to_string : ℤ → Bytes
to_string (pos n) = decimal n
to_string (negsuc n) = b'-' ∷ decimal (suc n)

-- A digit is read on.
digits-digit :
    (d : ℕ) (t : Bytes) (n : ℕ) (seen : Bool)
    → d < 10
    → digits ((48 + d) ∷ t) n seen ≡ digits t (n * 10 + d) true
unfolding digits is_digit
digits-digit d t n seen h = ground arith

digits-decimal_from :
    (fuel n : ℕ) (t : Bytes)
    → n < fuel
    → digits (decimal_from fuel n ++ t) 0 false ≡ digits t n true
unfolding decimal_from
digits-decimal_from zero n t h = absurd (omega arith)
digits-decimal_from (suc fuel) n t h = elim (Bool-cases (ltb n 10)) [
  | inl small ↦
      rw small (digits-digit n t 0 false (ground arith) ∙ ap (λ m. digits t m true) (omega arith))
  | inr big ↦ rw big (
      ap (λ s. digits s 0 false) (append_assoc (decimal_from fuel (n / 10)) ((48 + n % 10) ∷ []) t)
      ∙ digits-decimal_from fuel (n / 10) ((48 + n % 10) ∷ t) (ground arith)
      ∙ digits-digit (n % 10) t (n / 10) true (omega arith)
      ∙ ap (λ m. digits t m true) (omega arith))
]

-- The first character is a digit.
record Digital (s : Bytes) : Type 0 where
  first : ℕ
  others : Bytes
  made : s ≡ first ∷ others
  low : 48 ≤ first
  high : first ≤ 57

Digital-decimal_from : (fuel n : ℕ) → n < fuel → Digital (decimal_from fuel n)
unfolding decimal_from
Digital-decimal_from zero n h = absurd (omega arith)
Digital-decimal_from (suc fuel) n h = elim (Bool-cases (ltb n 10)) [
  | inl small ↦
      rw small (record {
        first = 48 + n;
        others = [];
        made = refl;
        low = omega arith;
        high = ground arith;
      })
  | inr big ↦
      let d = Digital-decimal_from fuel (n / 10) (ground arith) in
      rw big (record {
        first = d.first;
        others = d.others ++ ((48 + n % 10) ∷ []);
        made = ap (λ s. s ++ ((48 + n % 10) ∷ [])) d.made;
        low = d.low;
        high = d.high;
      })
]

stoi-unsigned : (s : Bytes) → Digital s → stoi s ≡ in_range false (digits s 0 false)
unfolding stoi signed is_space
stoi-unsigned s d = rw d.made (ground (arith, d.low, d.high))

digits-decimal : (n : ℕ) → digits (decimal n) 0 false ≡ some n
unfolding decimal digits
digits-decimal n =
    ap (λ s. digits s 0 false) (sym (append-nil (decimal_from (suc n) n)))
    ∙ digits-decimal_from (suc n) n [] (omega arith)

stoi-minus : (s : Bytes) → stoi (b'-' ∷ s) ≡ in_range true (digits s 0 false)
unfolding stoi signed is_space
stoi-minus s = refl

-- The values of an `int`.
abbrev pub IsInt : ℤ → Type 0
IsInt (pos n) = n < 2 ^ 31
IsInt (negsuc n) = n < 2 ^ 31

-- `std::stoi` reads what `std::to_string` wrote.
pub stoi-to_string : (i : ℤ) → IsInt i → stoi (to_string i) ≡ some i
unfolding to_string in_range
stoi-to_string (pos n) h =
    stoi-unsigned (decimal n) (unfold decimal in Digital-decimal_from (suc n) n (omega arith))
    ∙ ap (in_range false) (digits-decimal n)
    ∙ rw (lt→ltb n (2 ^ 31) h)
stoi-to_string (negsuc n) h =
    stoi-minus (decimal (suc n))
    ∙ ap (in_range true) (digits-decimal (suc n))
    ∙ rw (lt→ltb n (2 ^ 31) h)

length-decimal_from : (fuel k n : ℕ) → n < 10 ^ suc k → length (decimal_from fuel n) ≤ suc k
unfolding decimal_from
length-decimal_from zero k n h = omega arith
length-decimal_from (suc fuel) zero n h = ground arith
length-decimal_from (suc fuel) (suc k) n h = elim (Bool-cases (ltb n 10)) [
  | inl small ↦ rw small (omega arith)
  | inr big ↦ rw big (
      omega (
        arith,
        length-append (decimal_from fuel (n / 10)) ((48 + n % 10) ∷ []),
        length-decimal_from fuel k (n / 10) (omega (arith, pow_ten k)),
      ))
]
  where
    pow_ten : (k : ℕ) → 10 ^ suc (suc k) ≡ 10 * 10 ^ suc k
    pow_ten k = omega arith

-- An `int` is printed in eleven characters at most.
pub length-to_string : (i : ℤ) → IsInt i → length (to_string i) ≤ 11
unfolding to_string decimal
length-to_string (pos n) h = omega (arith, length-decimal_from (suc n) 9 n (omega arith))
length-to_string (negsuc n) h =
    omega (arith, length-decimal_from (suc (suc n)) 9 (suc n) (omega arith))
