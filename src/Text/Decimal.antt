-- ===== src/Text/Decimal.antt =====
-- The decimal numbers that fmt's %d prints and strconv reads.
use ftpserverlib.Prelude.{
  Bool-cases, ℕ, zero, suc, ◌+◌, ◌-◌, ◌*◌, ◌/◌, ◌%◌, ◌^◌, ◌≤◌, ◌<◌, Bool, true, false, ◌&&◌, [],
  ◌∷◌, ◌≡◌, refl, sym, ap, ◌∙◌, arith, ltb, leb, ◌==◌, if◌then◌else◌, inl, inr,
}
use ftpserverlib.Prelude.Int.{ℤ, pos, negsuc}
use ftpserverlib.Text.Defs.{Bytes}

-- The last digit first; one round for each digit.
unfoldable pub digits : ℕ → ℕ → Bytes → Bytes
digits zero n out = out
digits (suc fuel) n out =
    let rest = digits fuel (n / 10) ((b'0' + n % 10) ∷ out) in
    if ltb n 10 then (b'0' + n % 10) ∷ out else rest

unfoldable pub decimal : ℕ → Bytes
unfolding digits
decimal n = digits (suc n) n []

unfoldable pub format_int : ℤ → Bytes
unfolding decimal
format_int (pos n) = decimal n
format_int (negsuc n) = b'-' ∷ decimal (suc n)

-- What strconv says of a text that is no number of the type asked for.
pub data Number : Type 0 where
  number : ℤ → Number
  bad_syntax : Number
  out_of_range : Number

abbrev pub max_of : ℕ → ℕ
max_of bits = 2 ^ bits - 1

abbrev pub is_digit : ℕ → ℕ → Bool
is_digit base c = leb b'0' c && ltb (c - b'0') base

-- ParseUint's loop in a base up to 10, from the value read so far.
unfoldable pub read_digits : ℕ → ℕ → ℕ → Bytes → Number
read_digits base top n [] = number (pos n)
read_digits base top n (c ∷ s) =
    let rest = read_digits base top (n * base + (c - b'0')) s in
    if is_digit base c
    then (if ltb top (n * base + (c - b'0')) then out_of_range else rest)
    else bad_syntax

-- ParseUint(s, base, bits).
unfoldable pub parse_uint : ℕ → ℕ → Bytes → Number
unfolding read_digits
parse_uint base bits [] = bad_syntax
parse_uint base bits (c ∷ s) = read_digits base (max_of bits) 0 (c ∷ s)

abbrev signed : Bool → ℕ → Number → Number
signed negative bits (number (pos zero)) = number (pos zero)
signed true bits (number (pos (suc n))) =
    if ltb (2 ^ (bits - 1)) (suc n) then out_of_range else number (negsuc n)
signed false bits (number (pos (suc n))) =
    if leb (2 ^ (bits - 1)) (suc n) then out_of_range else number (pos (suc n))
signed negative bits (number (negsuc n)) = bad_syntax
signed negative bits bad_syntax = bad_syntax
signed negative bits out_of_range = out_of_range

-- ParseInt(s, 10, bits); Atoi(s) is ParseInt(s, 10, 64).
unfoldable pub parse_int : ℕ → Bytes → Number
unfolding parse_uint
parse_int bits [] = bad_syntax
parse_int bits (c ∷ s) =
    if c == b'-'
    then signed true bits (parse_uint 10 bits s)
    else if c == b'+'
    then signed false bits (parse_uint 10 bits s)
    else signed false bits (parse_uint 10 bits (c ∷ s))

read_digits_step :
    (top m d : ℕ) (out : Bytes)
    → d < 10
    → m * 10 + d ≤ top
    → read_digits 10 top m ((b'0' + d) ∷ out) ≡ read_digits 10 top (m * 10 + d) out
unfolding read_digits
read_digits_step top m d out h le = let e : b'0' + d - b'0' ≡ d = omega arith in rw e (ground arith)

pub read_digits-digits :
    (fuel n top : ℕ) (out : Bytes)
    → n < fuel
    → n ≤ top
    → read_digits 10 top 0 (digits fuel n out) ≡ read_digits 10 top n out
unfolding digits
read_digits-digits zero n top out h le = absurd (omega arith)
read_digits-digits (suc fuel) n top out h le = elim (Bool-cases (ltb n 10)) [
  | inl small ↦ rw small (
      read_digits_step top 0 (n % 10) out (omega arith) (ground arith)
      ∙ ap (λ k. read_digits 10 top k out) (ground arith))
  | inr large ↦ rw large (
      read_digits-digits fuel (n / 10) top ((b'0' + n % 10) ∷ out) (ground arith) (omega arith)
      ∙ read_digits_step top (n / 10) (n % 10) out (omega arith) (omega arith)
      ∙ ap (λ k. read_digits 10 top k out) (omega arith))
]

-- What `digits` puts in front of `out` begins with a digit.
pub digits-cons :
    (fuel n : ℕ) (out : Bytes)
    → n < fuel
    → (c : ℕ) × (s : Bytes) × (digits fuel n out ≡ c ∷ s) × (b'0' ≤ c)
unfolding digits
digits-cons zero n out h = absurd (omega arith)
digits-cons (suc fuel) n out h = elim (Bool-cases (ltb n 10)) [
  | inl small ↦ (b'0' + n % 10, out, rw small, omega arith)
  | inr large ↦
      let (c, s, e, le) = digits-cons fuel (n / 10) ((b'0' + n % 10) ∷ out) (ground arith) in
      (c, s, rw large e, le)
]

parse_int-cons :
    (bits c : ℕ) (s : Bytes)
    → b'0' ≤ c
    → parse_int bits (c ∷ s) ≡ signed false bits (read_digits 10 (max_of bits) 0 (c ∷ s))
unfolding parse_int
parse_int-cons bits c s h = ground arith

signed-pos : (bits n : ℕ) → n < 2 ^ (bits - 1) → signed false bits (number (pos n)) ≡ number (pos n)
signed-pos bits zero h = refl
signed-pos bits (suc n) h = ground arith

-- What fmt prints for a number in range is read back as that number.
pub parse_int-decimal :
    (bits n : ℕ)
    → n < 2 ^ (bits - 1)
    → n ≤ max_of bits
    → parse_int bits (decimal n) ≡ number (pos n)
unfolding decimal
parse_int-decimal bits n h le =
    let (c, s, e, digit) = digits-cons (suc n) n [] (omega arith) in
    ap (parse_int bits) e
    ∙ parse_int-cons bits c s digit
    ∙ ap (λ x. signed false bits (read_digits 10 (max_of bits) 0 x)) (sym e)
    ∙ ap (signed false bits) (read_digits-digits (suc n) n (max_of bits) [] (omega arith) le)
    ∙ unfold read_digits in signed-pos bits n h
