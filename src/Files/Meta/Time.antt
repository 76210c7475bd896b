-- ===== src/Files/Meta/Time.antt =====
-- time.Parse for the layout 20060102150405, and Format for time.RFC3339 in UTC.
use ftpserverlib.Prelude.{
  ℕ, zero, suc, ◌+◌, ◌-◌, ◌*◌, ◌%◌, ◌^◌, Bool, true, not, ◌&&◌, ◌||◌, [], ◌∷◌, ◌++◌, Option, none,
  some, ltb, leb, ◌==◌, if◌then◌else◌,
}
use ftpserverlib.Text.{Bytes, codes}
use ftpserverlib.Text.Decimal.{decimal, is_digit}
use ftpserverlib.Session.{Civil}
use ftpserverlib.Dirs.{pad}

-- So many digits, and what stands behind them.
unfoldable pub fixed_digits : ℕ → ℕ → Bytes → Option (ℕ × Bytes)
fixed_digits zero n s = some (n, s)
fixed_digits (suc k) n [] = none
fixed_digits (suc k) n (c ∷ s) =
    let rest = fixed_digits k (n * 10 + (c - b'0')) s in if is_digit 10 c then rest else none

abbrev is_leap : ℕ → Bool
is_leap y = y % 4 == 0 && (not (y % 100 == 0) || y % 400 == 0)

abbrev pub days_in : ℕ → ℕ → ℕ
days_in m y =
    if m == 2
    then (if is_leap y then 29 else 28)
    else if m == 4 || (m == 6 || (m == 9 || m == 11))
    then 30
    else 31

-- The hour, for which Parse takes one digit too.
unfoldable pub hour_digits : Bytes → Option (ℕ × Bytes)
hour_digits [] = none
hour_digits (c ∷ []) = if is_digit 10 c then some (c - b'0', []) else none
hour_digits (c ∷ d ∷ s) =
    if not (is_digit 10 c)
    then none
    else if is_digit 10 d
    then some ((c - b'0') * 10 + (d - b'0'), s)
    else some (c - b'0', d ∷ s)

unfoldable pub all_digits : Bytes → Bool
all_digits [] = true
all_digits (c ∷ s) = is_digit 10 c && all_digits s

-- So many digits of a fraction, in units of the last of them.
unfoldable pub fraction_value : ℕ → Bytes → ℕ
fraction_value zero s = 0
fraction_value (suc k) [] = 0
fraction_value (suc k) (c ∷ s) = (c - b'0') * 10 ^ k + fraction_value k s

-- A fraction of a second, which Parse takes where the layout has none: the nanoseconds.
unfoldable pub fraction : Bytes → Option ℕ
fraction [] = some 0
fraction (c ∷ []) = none
fraction (c ∷ d ∷ s) =
    if (c == b'.' || c == b',') && all_digits (d ∷ s) then some (fraction_value 9 (d ∷ s)) else none

abbrev pub in_range : Civil → Bool
in_range t =
    leb 1 t.month
    && (leb t.month 12
        && (leb 1 t.day
            && (leb t.day (days_in t.month t.year)
                && (ltb t.hour 24 && (ltb t.minute 60 && ltb t.second 60)))))

abbrev pub checked : Civil → Option Civil
checked t = if in_range t then some t else none

-- The chain of the fields.
infixl 5 ◌>>=◌
abbrev ◌>>=◌ : {A B : Type 0} → Option A → (A → Option B) → Option B
none >>= f = none
some a >>= f = f a

unfoldable pub parse_time : Bytes → Option Civil
unfolding fixed_digits hour_digits fraction all_digits fraction_value
parse_time s = do
  (year, s1) ← fixed_digits 4 0 s
  (month, s2) ← fixed_digits 2 0 s1
  (day, s3) ← fixed_digits 2 0 s2
  (hour, s4) ← hour_digits s3
  (minute, s5) ← fixed_digits 2 0 s4
  (second, s6) ← fixed_digits 2 0 s5
  nanosecond ← fraction s6
  checked (record {
    year = year;
    month = month;
    day = day;
    hour = hour;
    minute = minute;
    second = second;
    nanosecond = nanosecond;
  })

abbrev two : ℕ → Bytes
two n = pad 2 b'0' (decimal n)

unfoldable pub format_rfc3339 : Civil → Bytes
unfolding decimal
format_rfc3339 t =
    pad 4 b'0' (decimal t.year)
    ++ codes "-"
    ++ two t.month
    ++ codes "-"
    ++ two t.day
    ++ codes "T"
    ++ two t.hour
    ++ codes ":"
    ++ two t.minute
    ++ codes ":"
    ++ two t.second
    ++ codes "Z"
