-- ===== src/Common/Strings/Cut.antt =====
-- Texts that are cut to a length, and C strings.
use mprpc_main.Common.Strings.{c_str, Lacks}
use mprpc_main.Common.Strings.Decimal.{decimal, decimal_from}
use mprpc_main.Common.Maps.{Bytes}
use mprpc_main.Common.Lists.{take, take-take}
use mprpc_main.Common.Tests.{ltb, Bool-cases}
use Prim.Native.Nat.{ℕ, zero, suc, ◌+◌, ◌/◌, ◌%◌, ◌≤◌}
use mathlib.Core.Path.{◌≡◌, refl, ap}
use mathlib.Core.Logic.{inl, inr}
use mathlib.Core.List.{[], ◌∷◌, ◌++◌}
use native.Mathlib.Omega.{arith}

pub c_str-take : (n : ℕ) (s : Bytes) → c_str (take n s) ≡ take n (c_str s)
unfolding c_str
c_str-take zero [] = refl
c_str-take zero (zero ∷ s) = refl
c_str-take zero (suc c ∷ s) = refl
c_str-take (suc n) [] = refl
c_str-take (suc n) (zero ∷ s) = refl
c_str-take (suc n) (suc c ∷ s) = ap (λ t. suc c ∷ t) (c_str-take n s)

pub c_str-append : (h t : Bytes) → Lacks 0 h → c_str (h ++ t) ≡ h ++ c_str t
unfolding c_str
c_str-append [] t l = refl
c_str-append (zero ∷ h) t l = absurd (l.0 refl)
c_str-append (suc c ∷ h) t l = ap (λ s. suc c ∷ s) (c_str-append h t l.1)

pub c_str-Lacks : (s : Bytes) → c_str s ≡ s → Lacks 0 s
unfolding c_str
c_str-Lacks [] e = tt
c_str-Lacks (zero ∷ s) e = cc
c_str-Lacks (suc c ∷ s) e = ((λ z. omega arith), c_str-Lacks s (tail e))
  where
    tail : suc c ∷ c_str s ≡ suc c ∷ s → c_str s ≡ s
    tail e = cc

pub c_str-c_str : (s : Bytes) → c_str (c_str s) ≡ c_str s
unfolding c_str
c_str-c_str [] = refl
c_str-c_str (zero ∷ s) = refl
c_str-c_str (suc c ∷ s) = ap (λ t. suc c ∷ t) (c_str-c_str s)

-- A cut of the tail that is not shorter than the cut of the whole does not show.
pub take-append-take : (n m : ℕ) (h x : Bytes) → n ≤ m → take n (h ++ take m x) ≡ take n (h ++ x)
take-append-take n m [] x le = take-take n m x le
take-append-take zero m (c ∷ h) x le = refl
take-append-take (suc n) m (c ∷ h) x le = ap (λ t. c ∷ t) (take-append-take n m h x (omega arith))

pub append-Lacks : (c : ℕ) (s t : Bytes) → Lacks c s → Lacks c t → Lacks c (s ++ t)
append-Lacks c [] t h k = k
append-Lacks c (x ∷ s) t h k = (h.0, append-Lacks c s t h.1 k)

decimal_from-Lacks : (fuel n : ℕ) → Lacks 0 (decimal_from fuel n)
unfolding decimal_from
decimal_from-Lacks zero n = tt
decimal_from-Lacks (suc fuel) n = elim (Bool-cases (ltb n 10)) [
  | inl small ↦ rw small ((λ e. omega arith), tt)
  | inr big ↦ rw big (
      append-Lacks 0 (decimal_from fuel (n / 10)) ((48 + n % 10) ∷ [])
        (decimal_from-Lacks fuel (n / 10)) ((λ e. omega arith), tt))
]

pub decimal-Lacks : (n : ℕ) → Lacks 0 (decimal n)
unfolding decimal
decimal-Lacks n = decimal_from-Lacks (suc n) n
