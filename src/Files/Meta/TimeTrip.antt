-- ===== src/Files/Meta/TimeTrip.antt =====
-- The time that MDTM and MLSx print is the time that MFMT reads.
use ftpserverlib.Prelude.{
  ℕ, zero, suc, ◌+◌, ◌-◌, ◌*◌, ◌/◌, ◌%◌, ◌≤◌, ◌<◌, true, false, [], ◌∷◌, ◌++◌, Option, none, some,
  ◌≡◌, refl, sym, ap, ◌∙◌, inl, inr, arith, length, ltb, Bool-cases, append-nil,
}
use ftpserverlib.Text.{Bytes, has_byte}
use ftpserverlib.Text.Split.{Free}
use ftpserverlib.Text.Decimal.{decimal, digits, is_digit}
use ftpserverlib.Session.{Civil}
use ftpserverlib.Dirs.{fill, pad, format_mlsd}
use ftpserverlib.Files.Meta.Time.{days_in, fixed_digits, hour_digits, in_range, parse_time}

-- So many digits of a number, in front of a text.
expand : ℕ → ℕ → Bytes → Bytes
expand zero n out = out
expand (suc k) n out = expand k (n / 10) ((b'0' + n % 10) ∷ out)

tens : ℕ → ℕ
tens zero = 1
tens (suc k) = tens k * 10

fill-cons : (k c : ℕ) (s : Bytes) → fill k c (c ∷ s) ≡ c ∷ fill k c s
unfolding fill
fill-cons zero c s = refl
fill-cons (suc k) c s = ap (◌∷◌ c) (fill-cons k c s)

expand-zero : (k : ℕ) (out : Bytes) → expand k 0 out ≡ fill k b'0' out
unfolding expand fill
expand-zero zero out = refl
expand-zero (suc k) out = expand-zero k (b'0' ∷ out) ∙ fill-cons k b'0' out

room : (k n : ℕ) → ltb n 10 ≡ false → n < tens (suc k) → 0 < k
unfolding tens
room zero n large l = absurd (ground arith)
room (suc k) n large l = omega arith

fill-digits :
    (k fuel n : ℕ) (out : Bytes)
    → 0 < k
    → n < fuel
    → n < tens k
    → fill (k + length out - length (digits fuel n out)) b'0' (digits fuel n out) ≡ expand k n out
unfolding digits expand tens
fill-digits zero fuel n out p f l = absurd (omega arith)
fill-digits (suc k) zero n out p f l = absurd (omega arith)
fill-digits (suc k) (suc fuel) n out p f l = elim (Bool-cases (ltb n 10)) [
  | inl small ↦
      let none_left : n / 10 ≡ 0 = ground arith in
      let width : suc k + length out - suc (length out) ≡ k = omega arith in
      rw (small, width, none_left) (sym (expand-zero k ((b'0' + n % 10) ∷ out)))
  | inr large ↦
      let width : suc k + length out ≡ k + suc (length out) = omega arith in
      rw (large, width)
        (fill-digits k fuel (n / 10) ((b'0' + n % 10) ∷ out) (room k n large l) (ground arith)
          (omega arith))
]

expand-append : (k n : ℕ) (out s : Bytes) → expand k n out ++ s ≡ expand k n (out ++ s)
unfolding expand
expand-append zero n out s = refl
expand-append (suc k) n out s = expand-append k (n / 10) ((b'0' + n % 10) ∷ out) s

pad-expand : (k n : ℕ) (s : Bytes) → 0 < k → n < tens k → pad k b'0' (decimal n) ++ s ≡ expand k n s
unfolding decimal
pad-expand k n s p l =
    let width : k + 0 ≡ k = omega arith in
    ap (λ m. fill (m - length (digits (suc n) n [])) b'0' (digits (suc n) n []) ++ s) (sym width)
    ∙ ap (λ x. x ++ s) (fill-digits k (suc n) n [] p (omega arith) l)
    ∙ expand-append k n [] s

-- One digit more.
then_one : Option (ℕ × Bytes) → Option (ℕ × Bytes)
then_one none = none
then_one (some (n, s)) = fixed_digits 1 n s

fixed_digits-suc : (k n : ℕ) (s : Bytes) → fixed_digits (suc k) n s ≡ then_one (fixed_digits k n s)
unfolding fixed_digits then_one
fixed_digits-suc zero n s = refl
fixed_digits-suc (suc k) n [] = refl
fixed_digits-suc (suc k) n (c ∷ s) =
    let later = fixed_digits-suc k (n * 10 + (c - b'0')) s in
    elim (Bool-cases (is_digit 10 c)) [ inl digit ↦ rw (digit) later | inr other ↦ rw (other) refl ]

is_digit-last : (n : ℕ) → is_digit 10 (b'0' + n % 10) ≡ true
is_digit-last n = ground arith

then_one-digit : (n : ℕ) (s : Bytes) → then_one (some (n / 10, (b'0' + n % 10) ∷ s)) ≡ some (n, s)
unfolding then_one fixed_digits
then_one-digit n s =
    let digit = is_digit-last n in
    let value : n / 10 * 10 + (b'0' + n % 10 - b'0') ≡ n = omega arith in rw (digit, value) refl

fixed_digits-expand :
    (k n : ℕ) (out : Bytes) → n < tens k → fixed_digits k 0 (expand k n out) ≡ some (n, out)
unfolding expand tens fixed_digits
fixed_digits-expand zero n out l =
    let none_left : n ≡ 0 = omega arith in ap (λ x. some (x, out)) (sym none_left)
fixed_digits-expand (suc k) n out l =
    fixed_digits-suc k 0 (expand k (n / 10) ((b'0' + n % 10) ∷ out))
    ∙ ap then_one (fixed_digits-expand k (n / 10) ((b'0' + n % 10) ∷ out) (omega arith))
    ∙ then_one-digit n out

hour_digits-expand : (n : ℕ) (out : Bytes) → n < 100 → hour_digits (expand 2 n out) ≡ some (n, out)
unfolding expand hour_digits
hour_digits-expand n out l =
    let first = is_digit-last (n / 10) in
    let second = is_digit-last n in
    let value : (b'0' + n / 10 % 10 - b'0') * 10 + (b'0' + n % 10 - b'0') ≡ n = omega arith in
    rw (first, second, value) refl

pad-two : (n : ℕ) (s : Bytes) → n < 100 → pad 2 b'0' (decimal n) ++ s ≡ expand 2 n s
unfolding tens
pad-two n s l = pad-expand 2 n s (omega arith) l

pad-last : (n : ℕ) → n < 100 → pad 2 b'0' (decimal n) ≡ expand 2 n []
pad-last n l = sym (append-nil (pad 2 b'0' (decimal n))) ∙ pad-two n [] l

fixed_digits-two : (n : ℕ) (s : Bytes) → n < 100 → fixed_digits 2 0 (expand 2 n s) ≡ some (n, s)
unfolding tens
fixed_digits-two n s l = fixed_digits-expand 2 n s l

fixed_digits-four : (n : ℕ) (s : Bytes) → n < 10000 → fixed_digits 4 0 (expand 4 n s) ≡ some (n, s)
unfolding tens
fixed_digits-four n s l = fixed_digits-expand 4 n s l

days_in-bound : (m y : ℕ) → days_in m y ≤ 31
days_in-bound m y = ground arith

record IsShort (t : Civil) : Type 0 where
  month : t.month < 100
  day : t.day < 100
  hour : t.hour < 100
  minute : t.minute < 100
  second : t.second < 100

in_range-IsShort : (t : Civil) → in_range t ≡ true → IsShort t
in_range-IsShort t r =
    let most = days_in-bound t.month t.year in
    record {
      month = ground arith;
      day = ground arith;
      hour = ground arith;
      minute = ground arith;
      second = ground arith;
    }

-- The digits of MLSD's format, one field after the other.
format_mlsd-expand :
    (t : Civil)
    → IsShort t
    → t.year < 10000
    → format_mlsd t
      ≡ expand 4 t.year (
          expand 2 t.month
            (expand 2 t.day (expand 2 t.hour (expand 2 t.minute (expand 2 t.second [])))))
unfolding format_mlsd tens
format_mlsd-expand t r y =
    pad-expand 4 t.year _ (omega arith) y
    ∙ ap (expand 4 t.year) (
        pad-two t.month _ r.month
        ∙ ap (expand 2 t.month) (
            pad-two t.day _ r.day
            ∙ ap (expand 2 t.day) (
                pad-two t.hour _ r.hour
                ∙ ap (expand 2 t.hour) (
                    pad-two t.minute _ r.minute
                    ∙ ap (expand 2 t.minute) (pad-last t.second r.second)))))

expand-Free : (k n : ℕ) (out : Bytes) → Free b' ' out → Free b' ' (expand k n out)
unfolding expand has_byte
expand-Free zero n out f = f
expand-Free (suc k) n out f = expand-Free k (n / 10) ((b'0' + n % 10) ∷ out) (ground arith)

pub format_mlsd-Free : (t : Civil) → in_range t ≡ true → t.year < 10000 → Free b' ' (format_mlsd t)
unfolding has_byte
format_mlsd-Free t r y =
    let last = expand-Free 2 t.second [] refl in
    let minutes = expand-Free 2 t.minute _ last in
    let hours = expand-Free 2 t.hour _ minutes in
    let days = expand-Free 2 t.day _ hours in
    rw (format_mlsd-expand t (in_range-IsShort t r) y)
      (expand-Free 4 t.year _ (expand-Free 2 t.month _ days))

-- The time that MDTM answers is read back by MFMT to the second, for every valid time up to the
-- year 9999: what is cut off is the fraction of a second.
pub parse_time-format_mlsd :
    (t : Civil)
    → in_range t ≡ true
    → t.year < 10000
    → parse_time (format_mlsd t) ≡ some (record t { nanosecond = 0 })
unfolding parse_time
parse_time-format_mlsd t r y =
    let short = in_range-IsShort t r in
    let is_second = fixed_digits-two t.second [] short.second in
    rw
      (
        format_mlsd-expand t short y,
        fixed_digits-four t.year _ y,
        fixed_digits-two t.month _ short.month,
        fixed_digits-two t.day _ short.day,
        hour_digits-expand t.hour _ short.hour,
        fixed_digits-two t.minute _ short.minute,
        is_second,
        r,
      )
      refl
