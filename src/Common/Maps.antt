-- ===== src/Common/Maps.antt =====
-- `std::map` and `std::unordered_map` as association lists over keys with an equality test.
use Prim.Native.Nat.{ℕ}
use Prim.Native.Char.{code}
use Prim.Native.String.{String}
use mathlib.Core.Path.{◌≡◌, refl}
use mathlib.Core.Logic.{◌↔◌, ◌≢◌, inl, inr}
use mathlib.Core.Bool.{Bool, true, false, ◌&&◌}
use mathlib.Core.List.{List, [], ◌∷◌}
use mathlib.Core.Option.{Option, none, some}
use native.Mathlib.Omega.{arith}
use mprpc_main.Common.Tests.{◌==◌, ==_iff, if◌then◌else◌, Bool-cases}
use mprpc_main.Common.Words.{ℤ, pos, negsuc, int_eq}

-- A `std::string`, or a range of memory.
abbrev pub Bytes : Type 0
Bytes = List ℕ

-- The code points of a literal: its bytes, if it is ASCII.
abbrev pub codes : String → Bytes
codes String.[] = []
codes (String.◌∷◌ c s) = code c ∷ codes s

unfoldable pub bytes_eq : Bytes → Bytes → Bool
bytes_eq [] [] = true
bytes_eq (a ∷ s) (b ∷ t) = (a == b) && bytes_eq s t
bytes_eq _ _ = false

pub bytes_eq_refl : (s : Bytes) → bytes_eq s s ≡ true
unfolding bytes_eq
bytes_eq_refl [] = refl
bytes_eq_refl (a ∷ s) = ground (arith, bytes_eq_refl s)

bytes_eq-eq : (s t : Bytes) → bytes_eq s t ≡ true → s ≡ t
unfolding bytes_eq
bytes_eq-eq [] [] h = refl
bytes_eq-eq [] (b ∷ t) h = cc
bytes_eq-eq (a ∷ s) [] h = cc
bytes_eq-eq (a ∷ s) (b ∷ t) h = ground (arith, bytes_eq-eq s t)

pub bytes_eq_iff : (s t : Bytes) → (bytes_eq s t ≡ true) ↔ (s ≡ t)
bytes_eq_iff s t = (bytes_eq-eq s t, same)
  where
    same : s ≡ t → bytes_eq s t ≡ true
    same e = rw (← e) (bytes_eq_refl s)

int_eq-eq : (a b : ℤ) → int_eq a b ≡ true → a ≡ b
unfolding int_eq
int_eq-eq (pos m) (pos n) h = ground arith
int_eq-eq (pos m) (negsuc n) h = cc
int_eq-eq (negsuc m) (pos n) h = cc
int_eq-eq (negsuc m) (negsuc n) h = ground arith

int_eq_refl : (a : ℤ) → int_eq a a ≡ true
unfolding int_eq
int_eq_refl (pos m) = ground arith
int_eq_refl (negsuc m) = ground arith

pub int_eq_iff : (a b : ℤ) → (int_eq a b ≡ true) ↔ (a ≡ b)
int_eq_iff a b = (int_eq-eq a b, λ e. rw (← e) (int_eq_refl a))

pub int_ne : (a b : ℤ) → a ≢ b → int_eq a b ≡ false
int_ne a b h = elim (Bool-cases (int_eq a b)) [
  | inl e ↦ absurd (h ((int_eq_iff a b).0 e))
  | inr e ↦ e
]

pub bytes_ne : (s t : Bytes) → s ≢ t → bytes_eq s t ≡ false
bytes_ne s t h = elim (Bool-cases (bytes_eq s t)) [
  | inl e ↦ absurd (h ((bytes_eq_iff s t).0 e))
  | inr e ↦ e
]

pub record Eq (K : Type 0) : Type 0 where
  pub beq : K → K → Bool
  pub beq_iff : (a b : K) → (beq a b ≡ true) ↔ (a ≡ b)

instance abbrev pub nat_eq : Eq ℕ
nat_eq = record { beq = λ a b. a == b; beq_iff = ==_iff }

instance abbrev pub bytes_key : Eq Bytes
bytes_key = record { beq = bytes_eq; beq_iff = bytes_eq_iff }

instance abbrev pub int_key : Eq ℤ
int_key = record { beq = int_eq; beq_iff = int_eq_iff }

pub beq_refl : {K : Type 0} ⦃e : Eq K⦄ (k : K) → e.beq k k ≡ true
beq_refl ⦃e⦄ k = (e.beq_iff k k).1 refl

module _ {ℓ} {K : Type 0} {V : Type ℓ} ⦃e : Eq K⦄ where
  unfoldable pub find : K → List (K × V) → Option V
  find k [] = none
  find k ((j, v) ∷ m) = if e.beq j k then some v else find k m

  -- `m[k] = v`.
  unfoldable pub assign : K → V → List (K × V) → List (K × V)
  assign k v [] = (k, v) ∷ []
  assign k v ((j, w) ∷ m) = if e.beq j k then (j, v) ∷ m else (j, w) ∷ assign k v m

  -- `m.insert({k, v})`: an entry that is there stays as it is.
  unfoldable pub insert : K → V → List (K × V) → List (K × V)
  insert k v [] = (k, v) ∷ []
  insert k v ((j, w) ∷ m) = if e.beq j k then (j, w) ∷ m else (j, w) ∷ insert k v m

  -- `m.erase(k)`.
  unfoldable pub erase : K → List (K × V) → List (K × V)
  erase k [] = []
  erase k ((j, w) ∷ m) = if e.beq j k then erase k m else (j, w) ∷ erase k m

  pub find-assign :
      (k i : K) (v : V) (m : List (K × V))
      → find i (assign k v m) ≡ (if e.beq k i then some v else find i m)
  unfolding find assign
  find-assign k i v [] = refl
  find-assign k i v ((j, w) ∷ m) =
      ground (arith, e.beq_iff k i, e.beq_iff j k, e.beq_iff j i, find-assign k i v m)

  pub find-insert :
      (k i : K) (v : V) (m : List (K × V))
      → find i (insert k v m)
        ≡ elim (find i m) [ some w ↦ some w | none ↦ if e.beq k i then some v else none ]
  unfolding find insert
  find-insert k i v [] = refl
  find-insert k i v ((j, w) ∷ m) =
      ground (arith, e.beq_iff k i, e.beq_iff j k, e.beq_iff j i, find-insert k i v m)

  pub find-erase :
      (k i : K) (m : List (K × V)) → find i (erase k m) ≡ (if e.beq k i then none else find i m)
  unfolding find erase
  find-erase k i [] = ground arith
  find-erase k i ((j, w) ∷ m) =
      ground (arith, e.beq_iff k i, e.beq_iff j k, e.beq_iff j i, find-erase k i m)
