-- ===== src/Rpc/Config/Lines.antt =====
-- What `Trim` and `LoadConfigFile` make of a line.
use mprpc_main.Common.{
  ℕ, zero, suc, ◌+◌, ◌-◌, ◌<◌, ◌≡◌, ◌≢◌, refl, sym, ap, ap₂, ◌∙◌, Option, none, some, [], ◌∷◌, ◌++◌,
  Bytes, length, take, drop, replicate, arith, find_first_not_of, find_last_not_of, Lacks,
  find_char-append, insert, bytes_key, length-append, length-replicate, take-append, drop-append,
  take_all, drop-drop, ne→==,
}
use mprpc_main.Rpc.Config.{ConfigMap, trim, trim_between, load_pair, load_line, load_at}

-- Spaces, as many as given.
abbrev pub spaces : ℕ → Bytes
spaces n = replicate n 32

-- The text is not empty and neither begins nor ends with a space.
abbrev pub LastTight : Bytes → Type 0
LastTight [] = ⊥
LastTight (x ∷ []) = x ≢ 32
LastTight (x ∷ y ∷ s) = LastTight (y ∷ s)

abbrev pub Tight : Bytes → Type 0
Tight [] = ⊥
Tight (x ∷ s) = (x ≢ 32) × LastTight (x ∷ s)

abbrev shift : ℕ → Option ℕ → Option ℕ
shift n none = none
shift n (some i) = some (n + i)

find_first-spaces :
    (n : ℕ) (s : Bytes) → find_first_not_of 32 (spaces n ++ s) ≡ shift n (find_first_not_of 32 s)
unfolding find_first_not_of
find_first-spaces zero s = ground arith
find_first-spaces (suc n) s = ground (arith, find_first-spaces n s)

find_last-spaces :
    (n : ℕ) (s : Bytes) {i : ℕ}
    → find_last_not_of 32 s ≡ some i
    → find_last_not_of 32 (spaces n ++ s) ≡ some (n + i)
unfolding find_last_not_of
find_last-spaces zero s h = ground arith
find_last-spaces (suc n) s h = ground (arith, find_last-spaces n s h)

find_last-only_spaces : (n : ℕ) → find_last_not_of 32 (spaces n) ≡ none
unfolding find_last_not_of
find_last-only_spaces zero = refl
find_last-only_spaces (suc n) = ground (arith, find_last-only_spaces n)

find_first-only_spaces : (n : ℕ) → find_first_not_of 32 (spaces n) ≡ none
unfolding find_first_not_of
find_first-only_spaces zero = refl
find_first-only_spaces (suc n) = ground (arith, find_first-only_spaces n)

find_last-tight :
    (s : Bytes) (n : ℕ) → LastTight s → find_last_not_of 32 (s ++ spaces n) ≡ some (length s - 1)
unfolding find_last_not_of
find_last-tight [] n h = absurd h
find_last-tight (x ∷ []) n h = ground (arith, find_last-only_spaces n)
find_last-tight (x ∷ y ∷ s) n h = ground (arith, find_last-tight (y ∷ s) n h)

find_first-Tight : (s rest : Bytes) → Tight s → find_first_not_of 32 (s ++ rest) ≡ some 0
unfolding find_first_not_of
find_first-Tight [] rest h = absurd h
find_first-Tight (x ∷ s) rest h = ground arith

Tight-pos : (s : Bytes) → Tight s → 0 < length s
Tight-pos [] h = absurd h
Tight-pos (x ∷ s) h = omega arith

Tight-last : (s : Bytes) → Tight s → LastTight s
Tight-last [] h = h
Tight-last (x ∷ s) h = h.1

-- A text that is not empty and neither begins nor ends with a space, with any number of spaces
-- before it and behind it: `Trim` gives just that text.
pub trim-padded : (a b : ℕ) (s : Bytes) → Tight s → trim (spaces a ++ (s ++ spaces b)) ≡ s
unfolding trim trim_between
trim-padded a b s t =
    rw
      (
        find_first-spaces a (s ++ spaces b),
        find_first-Tight s (spaces b) t,
        find_last-spaces a (s ++ spaces b) (find_last-tight s b (Tight-last s t)),
        trim_between,
      )
      (ap (λ n. take n (drop (a + 0) (spaces a ++ (s ++ spaces b)))) count
        ∙ ap (take (length s)) (
            drop-append (a + 0) (spaces a) (s ++ spaces b)
              (omega (arith, length-replicate {A = ℕ} a 32)))
        ∙ take-append (length s) s (spaces b) refl)
  where
    count : a + (length s - 1) - (a + 0) + 1 ≡ length s
    count = omega (arith, Tight-pos s t)

-- A text of spaces only is trimmed to the empty text.
pub trim-spaces : (n : ℕ) → trim (spaces n) ≡ []
unfolding trim trim_between
trim-spaces n = rw (find_first-only_spaces n)

-- A line is cut at its first `=`.
pub load_line-split :
    (c : ℕ) (key value : Bytes) (m : ConfigMap)
    → c ≢ b'#'
    → Lacks b'=' (c ∷ key)
    → load_line ((c ∷ key) ++ (b'=' ∷ value)) m ≡ load_pair (trim (c ∷ key)) (trim value) m
unfolding load_line
load_line-split c key value m h l =
    rw (ne→== c b'#' h, find_char-append b'=' (c ∷ key) value l, load_at)
      (ap₂ (λ k v. load_pair (trim k) (trim v) m)
        (take-append (length (c ∷ key)) (c ∷ key) (b'=' ∷ value) refl)
        (ap (take (length line - length (c ∷ key))) behind
          ∙ take_all (length line - length (c ∷ key)) value (omega (arith, size))))
  where
    line : Bytes
    line = (c ∷ key) ++ (b'=' ∷ value)

    size : length line ≡ length (c ∷ key) + suc (length value)
    size = length-append (c ∷ key) (b'=' ∷ value)

    behind : drop (length (c ∷ key) + 1) line ≡ value
    behind =
        sym (drop-drop 1 (length (c ∷ key)) (length (c ∷ key) + 1) line refl)
        ∙ ap (drop 1) (drop-append (length (c ∷ key)) (c ∷ key) (b'=' ∷ value) refl)

load_pair-Tight :
    (key value : Bytes) (m : ConfigMap) → Tight key → load_pair key value m ≡ insert key value m
unfolding load_pair
load_pair-Tight [] value m t = absurd t
load_pair-Tight (c ∷ key) value m t = refl

Lacks-append : (c : ℕ) (s t : Bytes) → Lacks c s → Lacks c t → Lacks c (s ++ t)
Lacks-append c [] t hs ht = ht
Lacks-append c (x ∷ s) t hs ht = (hs.0, Lacks-append c s t hs.1 ht)

Lacks-spaces : (n : ℕ) → Lacks b'=' (spaces n)
Lacks-spaces zero = tt
Lacks-spaces (suc n) = (omega arith, Lacks-spaces n)

-- The line `key = value`, with any spaces round the key and round the value.
abbrev pub entry_line : ℕ → Bytes → ℕ → Bytes → Bytes
entry_line a key b value = (spaces a ++ (key ++ spaces b)) ++ (b'=' ∷ value)

abbrev pub NoComment : Bytes → Type 0
NoComment [] = ⊥
NoComment (c ∷ s) = c ≢ b'#'

split_any :
    (key value : Bytes) (m : ConfigMap)
    → NoComment key
    → Lacks b'=' key
    → load_line (key ++ (b'=' ∷ value)) m ≡ load_pair (trim key) (trim value) m
split_any [] value m h l = absurd h
split_any (c ∷ key) value m h l = load_line-split c key value m h l

padded-NoComment :
    (a b : ℕ) (key : Bytes) → Tight key → NoComment key → NoComment (spaces a ++ (key ++ spaces b))
padded-NoComment zero b [] t h = absurd h
padded-NoComment zero b (c ∷ key) t h = h
padded-NoComment (suc a) b key t h = omega arith

-- A line with a key that is not empty, begins and ends with no space, does not begin with `#` and
-- holds no `=`, in any spaces, stores the trimmed value under that key, unless the key is there
-- already.
pub load_line-entry :
    (a b : ℕ) (key value : Bytes) (m : ConfigMap)
    → Tight key
    → NoComment key
    → Lacks b'=' key
    → load_line (entry_line a key b value) m ≡ insert key (trim value) m
load_line-entry a b key value m t h l =
    split_any (spaces a ++ (key ++ spaces b)) value m (padded-NoComment a b key t h) (
      Lacks-append b'=' (spaces a) (key ++ spaces b) (Lacks-spaces a)
        (Lacks-append b'=' key (spaces b) l (Lacks-spaces b)))
    ∙ ap (λ k. load_pair k (trim value) m) (trim-padded a b key t)
    ∙ load_pair-Tight key (trim value) m t
