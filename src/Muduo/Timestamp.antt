-- ===== src/Muduo/Timestamp.antt =====
-- mymuduo-main/src/Timestamp.cpp: a time in seconds, and its text. `localtime` is a parameter.
use mprpc_main.Common.{
  ℕ, suc, ◌+◌, ◌-◌, ◌≤◌, Bytes, [], ◌∷◌, ◌++◌, codes, length, length-append, replicate,
  length-replicate, arith, ℤ, pos, negsuc,
}
use mprpc_main.Common.Strings.Decimal.{to_string, IsInt, length-to_string}

-- What `sprintf` is given: the fields of `std::tm`, with 1900 and 1 added to the first two.
pub record Date : Type 0 where
  pub year : ℤ
  pub month : ℤ
  pub day : ℤ
  pub hour : ℤ
  pub minute : ℤ
  pub second : ℤ

-- The value that `t_` has after the constructors and `now`.
pub record Timestamp : Type 0 where
  pub t : ℤ

pub new : Timestamp
new = record { t = pos 0 }

pub of_seconds : ℤ → Timestamp
of_seconds t = record { t = t }

pub now : ℤ → Timestamp
unfolding of_seconds
now time = of_seconds time

-- `%0wd`: zeros behind the sign, up to the width.
padded : ℕ → ℤ → Bytes
padded width (pos n) =
    let digits = to_string (pos n) in replicate (width - length digits) b'0' ++ digits
padded width (negsuc n) =
    let digits = to_string (pos (suc n)) in
    b'-' ∷ (replicate (width - 1 - length digits) b'0' ++ digits)

-- `tostring`, as it is written into `buf` of 128 bytes.
pub to_text : (ℤ → Date) → Timestamp → Bytes
unfolding padded
to_text localtime s =
    let tm = localtime s.t in
    padded 4 tm.year
    ++ (codes "-"
        ++ (padded 2 tm.month
            ++ (codes "-"
                ++ (padded 2 tm.day
                    ++ (codes " "
                        ++ (padded 2 tm.hour
                            ++ (codes ":"
                                ++ (padded 2 tm.minute ++ (codes ":" ++ padded 2 tm.second)))))))))

padded-short : (width : ℕ) (i : ℤ) → width ≤ 11 → IsInt i → length (padded width i) ≤ 11
unfolding padded
padded-short width (pos n) w h =
    let size = length (to_string (pos n)) in
    omega (
      arith,
      length-append (replicate (width - size) b'0') (to_string (pos n)),
      length-replicate {A = ℕ} (width - size) b'0',
      length-to_string (pos n) h,
    )
padded-short width (negsuc n) w h =
    let size = length (to_string (pos (suc n))) in
    omega (
      arith,
      length-append (replicate (width - 1 - size) b'0') (to_string (pos (suc n))),
      length-replicate {A = ℕ} (width - 1 - size) b'0',
      minus n h,
    )
  where
    minus : (n : ℕ) → IsInt (negsuc n) → suc (length (to_string (pos (suc n)))) ≤ 11
    minus n h = unfold to_string in length-to_string (negsuc n) h

-- One more field behind a separator.
field-short :
    (c n : ℕ) (s t : Bytes) → length s ≤ 11 → length t ≤ n → length (s ++ ((c ∷ []) ++ t)) ≤ 12 + n
field-short c n s t hs ht = omega (arith, length-append s ((c ∷ []) ++ t))

pub data AllInts (d : Date) : Type 0 where
  all_ints :
      IsInt d.year
      → IsInt d.month
      → IsInt d.day
      → IsInt d.hour
      → IsInt d.minute
      → IsInt d.second
      → AllInts d

-- Whatever the fields of the date are, as `int`: the text and its zero byte fit into `buf`.
pub to_text-fits :
    (localtime : ℤ → Date) (s : Timestamp)
    → AllInts (localtime s.t)
    → length (to_text localtime s) + 1 ≤ 128
unfolding to_text
to_text-fits localtime s (all_ints y m d h n c) = omega (
  arith,
  field-short b'-' 59 _ _ (padded-short 4 _ (omega arith) y) (
      field-short b'-' 47 _ _ (padded-short 2 _ (omega arith) m) (
        field-short b' ' 35 _ _ (padded-short 2 _ (omega arith) d) (
          field-short b':' 23 _ _ (padded-short 2 _ (omega arith) h) (
            field-short b':' 11 _ _ (padded-short 2 _ (omega arith) n)
              (padded-short 2 _ (omega arith) c))))),
)
