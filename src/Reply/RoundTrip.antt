-- ===== src/Reply/RoundTrip.antt =====
-- A client that reads replies as RFC 959 (4.2) has it finds each reply and where it ends.
use ftpserverlib.Prelude.{
  ℕ, suc, ◌+◌, ◌-◌, ◌/◌, ◌%◌, ◌≤◌, ◌<◌, true, false, List, [], ◌∷◌, ◌++◌, ◌≡◌, refl, ap, ◌∙◌, arith,
  ltb, ◌==◌, if◌then◌else◌, Option, some, none, All, take, length, append_assoc, Bool-cases, inl,
  inr,
}
use ftpserverlib.Text.{Bytes, codes, has_prefix, trim_prefix, has_byte, split}
use ftpserverlib.Text.Decimal.{decimal, digits}
use ftpserverlib.Text.Split.{Free, split-Free}
use ftpserverlib.Reply.{
  newline, drop_cr, drop_last_empty, scan, max_scan_token, get_message_lines, or_one_empty,
  continued, closing, write_lines, write_message, multiline_answer,
}

abbrev pub space_behind : Bytes → Bytes
space_behind k = k ++ (b' ' ∷ [])

abbrev pub dash_behind : Bytes → Bytes
dash_behind k = k ++ (b'-' ∷ [])

-- The text of a line inside a reply.
text_of : Bytes → Bytes → Bytes
text_of k line = if has_prefix (dash_behind k) line then trim_prefix (dash_behind k) line else line

abbrev and_line : Bytes → Option (List Bytes × List Bytes) → Option (List Bytes × List Bytes)
and_line l none = none
and_line l (some (ls, rest)) = some (l ∷ ls, rest)

-- The lines up to the one that has the code and a space in front, and what stands behind it.
pub read_until : Bytes → List Bytes → Option (List Bytes × List Bytes)
unfolding text_of
read_until k [] = none
read_until k (l ∷ ls) =
    let rest = and_line (text_of k l) (read_until k ls) in
    if has_prefix (space_behind k) l then some (trim_prefix (space_behind k) l ∷ [], ls) else rest

-- The first three characters of a reply are its code.
pub read_reply : List Bytes → Option (List Bytes × List Bytes)
read_reply [] = none
read_reply (l ∷ ls) = read_until (take 3 l) (l ∷ ls)

prefix_mark : (k s : Bytes) (c : ℕ) → has_prefix (k ++ (c ∷ [])) (k ++ (c ∷ s)) ≡ true
unfolding has_prefix
prefix_mark [] s c = ground arith
prefix_mark (x ∷ k) s c = ground (arith, prefix_mark k s c)

prefix_other :
    (k s : Bytes) (c d : ℕ) → (c == d) ≡ false → has_prefix (k ++ (c ∷ [])) (k ++ (d ∷ s)) ≡ false
unfolding has_prefix
prefix_other [] s c d h = ground arith
prefix_other (x ∷ k) s c d h = ground (arith, prefix_other k s c d h)

trim_mark : (k s : Bytes) (c : ℕ) → trim_prefix (k ++ (c ∷ [])) (k ++ (c ∷ s)) ≡ s
unfolding trim_prefix
trim_mark [] s c = refl
trim_mark (x ∷ k) s c = trim_mark k s c

read_until-closing :
    (code : ℕ) (l : Bytes) (ls : List Bytes)
    → read_until (decimal code) (closing code l ∷ ls) ≡ some (l ∷ [], ls)
unfolding read_until
read_until-closing code l ls =
    rw (prefix_mark (decimal code) l b' ', trim_mark (decimal code) l b' ')

read_until-continued :
    (code : ℕ) (l : Bytes) (ls : List Bytes)
    → read_until (decimal code) (continued code l ∷ ls) ≡ and_line l (read_until (decimal code) ls)
unfolding read_until
read_until-continued code l ls = rw (
  prefix_other (decimal code) l b' ' b'-' refl,
  prefix_mark (decimal code) l b'-',
  trim_mark (decimal code) l b'-',
)

read_until-write_lines :
    (code : ℕ) (l : Bytes) (ls rest : List Bytes)
    → read_until (decimal code) (write_lines code (l ∷ ls) ++ rest) ≡ some (l ∷ ls, rest)
unfolding write_lines
read_until-write_lines code l [] rest = read_until-closing code l rest
read_until-write_lines code l (m ∷ ls) rest =
    read_until-continued code l (write_lines code (m ∷ ls) ++ rest)
    ∙ ap (and_line l) (read_until-write_lines code m ls rest)

-- A code of three digits is printed as its digits.
three_digits :
    (f n : ℕ)
    → 100 ≤ n
    → n < 1000
    → digits (suc (suc (suc f))) n []
      ≡ (b'0' + n / 100) ∷ (b'0' + n / 10 % 10) ∷ (b'0' + n % 10) ∷ []
unfolding digits
three_digits f n lo hi = ground arith

pub decimal-three_digits :
    (n : ℕ)
    → 100 ≤ n
    → n < 1000
    → decimal n ≡ (b'0' + n / 100) ∷ (b'0' + n / 10 % 10) ∷ (b'0' + n % 10) ∷ []
unfolding decimal
decimal-three_digits n lo hi =
    let e : suc n ≡ suc (suc (suc (n - 2))) = omega arith in
    ap (λ f. digits f n []) e ∙ three_digits (n - 2) n lo hi

take-decimal : (n : ℕ) (s : Bytes) → 100 ≤ n → n < 1000 → take 3 (decimal n ++ s) ≡ decimal n
take-decimal n s lo hi = rw (decimal-three_digits n lo hi)

read_reply-write_lines :
    (code : ℕ) (l : Bytes) (ls rest : List Bytes)
    → 100 ≤ code
    → code < 1000
    → read_reply (write_lines code (l ∷ ls) ++ rest) ≡ some (l ∷ ls, rest)
unfolding read_reply write_lines
read_reply-write_lines code l [] rest lo hi =
    rw (take-decimal code (b' ' ∷ l) lo hi) (read_until-write_lines code l [] rest)
read_reply-write_lines code l (m ∷ ls) rest lo hi =
    rw (take-decimal code (b'-' ∷ l) lo hi) (read_until-write_lines code l (m ∷ ls) rest)

get_message_lines-cons :
    (message : Bytes) → (l : Bytes) × (ls : List Bytes) × (get_message_lines message ≡ l ∷ ls)
unfolding get_message_lines
get_message_lines-cons message = go (scan (drop_last_empty (split newline message)))
  where
    go : (x : List Bytes) → (l : Bytes) × (ls : List Bytes) × (or_one_empty x ≡ l ∷ ls)
    go [] = ([], [], refl)
    go (l ∷ ls) = (l, ls, refl)

-- A client finds the lines of the message in what writeMessage wrote, for every message and every
-- code of three digits, and goes on with the reply behind it.
pub read_reply-write_message :
    (code : ℕ) (message : Bytes) (rest : List Bytes)
    → 100 ≤ code
    → code < 1000
    → read_reply (write_message code message ++ rest) ≡ some (get_message_lines message, rest)
read_reply-write_message code message rest lo hi =
    let (l, ls, e) = get_message_lines-cons message in
    unfold write_message in rw e (read_reply-write_lines code l ls rest lo hi)

-- A line that cannot be taken for the end of the reply, nor for a marked line of it.
abbrev pub Inside : ℕ → Bytes → Type 0
Inside code l =
    (has_prefix (space_behind (decimal code)) l ≡ false)
    × (has_prefix (dash_behind (decimal code)) l ≡ false)

read_until_body :
    (code : ℕ) (body rest : List Bytes) (last : Bytes)
    → All (Inside code) body
    → read_until (decimal code) (body ++ (closing code last ∷ rest))
      ≡ some (body ++ (last ∷ []), rest)
unfolding read_until
read_until_body code [] rest last h = read_until-closing code last rest
read_until_body code (l ∷ body) rest last h =
    rw (h.0.0, h.0.1, read_until_body code body rest last h.1)

-- A client reads a multi-line answer as its first line, the lines inside it and "End", if no line
-- inside begins with the code and a space or a dash.
pub read_reply-multiline_answer :
    (code : ℕ) (message : Bytes) (body rest : List Bytes)
    → 100 ≤ code
    → code < 1000
    → All (Inside code) body
    → read_reply (multiline_answer code message body ++ rest)
      ≡ some (message ∷ (body ++ (codes "End" ∷ [])), rest)
unfolding read_reply multiline_answer
read_reply-multiline_answer code message body rest lo hi h =
    rw (take-decimal code (b'-' ∷ message) lo hi) (
      read_until-continued code message ((body ++ (closing code (codes "End") ∷ [])) ++ rest)
      ∙ ap (λ x. and_line message (read_until (decimal code) x))
          (append_assoc body (closing code (codes "End") ∷ []) rest)
      ∙ ap (and_line message) (read_until_body code body rest (codes "End") h))

drop_cr-Free : (l : Bytes) → Free newline l → Free newline (drop_cr l)
unfolding drop_cr has_byte
drop_cr-Free [] h = refl
drop_cr-Free (c ∷ []) h = ground arith
drop_cr-Free (c ∷ d ∷ s) h = ground (arith, drop_cr-Free (d ∷ s))

drop_last_empty-Free :
    (ls : List Bytes) → All (Free newline) ls → All (Free newline) (drop_last_empty ls)
unfolding drop_last_empty
drop_last_empty-Free [] h = tt
drop_last_empty-Free ([] ∷ []) h = tt
drop_last_empty-Free ((c ∷ l) ∷ []) h = h
drop_last_empty-Free ([] ∷ m ∷ r) h = (h.0, drop_last_empty-Free (m ∷ r) h.1)
drop_last_empty-Free ((c ∷ l) ∷ m ∷ r) h = (h.0, drop_last_empty-Free (m ∷ r) h.1)

scan-Free : (ls : List Bytes) → All (Free newline) ls → All (Free newline) (scan ls)
unfolding scan
scan-Free [] h = tt
scan-Free (l ∷ ls) h = elim (Bool-cases (ltb (length l) max_scan_token)) [
  | inl y ↦ rw y (drop_cr-Free l h.0, scan-Free ls h.1)
  | inr n ↦ rw n tt
]

or_one_empty-Free : (ls : List Bytes) → All (Free newline) ls → All (Free newline) (or_one_empty ls)
unfolding has_byte
or_one_empty-Free [] h = (refl, tt)
or_one_empty-Free (l ∷ ls) h = h

-- No line of a message holds a line end: what a client or a driver put into the message cannot
-- start a line that the server did not mark.
pub get_message_lines-Free : (message : Bytes) → All (Free newline) (get_message_lines message)
unfolding get_message_lines
get_message_lines-Free message =
    or_one_empty-Free (scan (drop_last_empty (split newline message))) (
      scan-Free (drop_last_empty (split newline message))
        (drop_last_empty-Free (split newline message) (split-Free newline message)))
