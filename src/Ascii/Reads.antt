-- ===== src/Ascii/Reads.antt =====
-- What a converter gives over many reads.
use ftpserverlib.Prelude.{
  ℕ, zero, suc, ◌-◌, ◌<◌, Bool, true, false, List, [], ◌∷◌, ◌++◌, Option, none, some, ◌≡◌, refl,
  sym, ap, ◌∙◌, ◌↔◌, inl, inr, arith, ltb, length, take, drop, append_assoc, Bool-cases,
}
use ftpserverlib.Text.{Bytes}
use ftpserverlib.Session.{ConvertMode}
use ftpserverlib.Ascii.{buffer_size, read_line, Converter, line_end, give, read}
use ftpserverlib.Ascii.Convert.{convert, end_of, read_line-convert}

-- What is still to come from a converter.
unfoldable pub pending : ConvertMode → Converter → Bytes
pending mode c = elim c.remaining [
  | [] ↦ convert (line_end mode) c.input
  | x ∷ r ↦ (x ∷ r) ++ (end_of (line_end mode) c.last_newline ++ convert (line_end mode) c.input)
]

pub ltb_iff : (a b : ℕ) → (ltb a b ≡ true) ↔ (a < b)
ltb_iff a b = ground arith

take-drop : (n : ℕ) (s : Bytes) → take n s ++ drop n s ≡ s
take-drop zero s = refl
take-drop (suc n) [] = refl
take-drop (suc n) (x ∷ s) = ap (◌∷◌ x) (take-drop n s)

pub length-drop : (n : ℕ) (s : Bytes) → length (drop n s) ≡ length s - n
length-drop zero s = omega arith
length-drop (suc n) [] = omega arith
length-drop (suc n) (x ∷ s) = omega (arith, length-drop n s)

pending-remaining :
    (mode : ConvertMode) (c : Converter) (r : Bytes)
    → 0 < length r
    → pending mode (record c { remaining = r })
      ≡ r ++ (end_of (line_end mode) c.last_newline ++ convert (line_end mode) c.input)
unfolding pending
pending-remaining mode c [] l = ground arith
pending-remaining mode c (x ∷ r) l = refl

give-pending :
    (mode : ConvertMode) (size : ℕ) (text : Bytes) (c : Converter)
    → (give mode size text c).0 ++ pending mode (give mode size text c).1
      ≡ text ++ (end_of (line_end mode) c.last_newline ++ convert (line_end mode) c.input)
unfolding give pending
give-pending mode size text c = elim (Bool-cases (ltb (size - 2) (length text))) [
  | inr fits ↦
      rw (fits) (
        append_assoc text (end_of (line_end mode) c.last_newline) (convert (line_end mode) c.input))
  | inl more ↦ rw (more) (
      ap (λ x. take (size - 2) text ++ x)
        (pending-remaining mode c (drop (size - 2) text)
          (omega (arith, length-drop (size - 2) text, (ltb_iff (size - 2) (length text)).0 more)))
      ∙ sym (append_assoc (take (size - 2) text) (drop (size - 2) text) _)
      ∙ ap (λ x. x ++ (end_of (line_end mode) c.last_newline ++ convert (line_end mode) c.input))
          (take-drop (size - 2) text))
]

abbrev Given : ConvertMode → ℕ → Converter → Type 0
Given mode size c =
    (read mode size c ≡ none → pending mode c ≡ [])
    × ((out : Bytes) (c' : Converter)
        → read mode size c ≡ some (out, c')
        → out ++ pending mode c' ≡ pending mode c)

read-Given_of :
    (mode : ConvertMode) (size : ℕ) (input : Bytes) (last_newline : Bool) (remaining : Bytes)
    → Given mode size (record { input = input; last_newline = last_newline; remaining = remaining })
unfolding read
read-Given_of mode size input last (x ∷ r) =
    let c : Converter = record { input = input; last_newline = last; remaining = x ∷ r } in
    let given = give-pending mode size (x ∷ r) c in
    (λ e. ground arith, λ out c' e. unfold pending in ground arith)
read-Given_of mode size [] last [] = (λ e. unfold pending convert in refl, λ out c' e. ground arith)
read-Given_of mode size (x ∷ s) last [] =
    let l = read_line buffer_size (x ∷ s) in
    let c : Converter = record { input = l.rest; last_newline = l.ended; remaining = [] } in
    let given = give-pending mode size l.text c in
    let converted = read_line-convert (line_end mode) buffer_size (x ∷ s) in
    (λ e. ground arith, λ out c' e. unfold pending in ground arith)

-- One read: what it gives, before what is then still to come, is what was to come; the end of the
-- input is reported just when nothing is.
read-Given : (mode : ConvertMode) (size : ℕ) (c : Converter) → Given mode size c
read-Given mode size c = read-Given_of mode size c.input c.last_newline c.remaining

-- So many reads, with buffers of these sizes: what they gave, and the converter after them, or
-- nothing more once the end is reported.
pub record Reads : Type 0 where
  pub out : Bytes
  pub at_end : Bool
  pub after : Converter

unfoldable pub read_all : ConvertMode → List ℕ → Converter → Reads
read_all mode [] c = record { out = []; at_end = false; after = c }
read_all mode (size ∷ sizes) c = elim (read mode size c) [
  | none ↦ record { out = []; at_end = true; after = c }
  | some (given, c') ↦ record (read_all mode sizes c') {
    out = given ++ (read_all mode sizes c').out;
  }
]

abbrev Pending : ConvertMode → Reads → Converter → Type 0
Pending mode r c =
    (r.out ++ pending mode r.after ≡ pending mode c) × (r.at_end ≡ true → pending mode r.after ≡ [])

-- The first of the reads, and the others.
first-Pending :
    (mode : ConvertMode) (sizes : List ℕ) (c : Converter) (o : Option (Bytes × Converter))
    → (o ≡ none → pending mode c ≡ [])
    → ((out : Bytes) (c' : Converter)
        → o ≡ some (out, c')
        → out ++ pending mode c' ≡ pending mode c)
    → ((c' : Converter) → Pending mode (read_all mode sizes c') c')
    → Pending mode
        (elim o as (λ _. Reads) [
          | none ↦ record { out = []; at_end = true; after = c }
          | some (given, c') ↦ record (read_all mode sizes c') {
            out = given ++ (read_all mode sizes c').out;
          }
        ])
        c
first-Pending mode sizes c none n one rest = (refl, λ _. n refl)
first-Pending mode sizes c (some (given, c')) n one rest = (
  append_assoc given (read_all mode sizes c').out _
      ∙ ap (λ x. given ++ x) (rest c').0
      ∙ one given c' refl,
  (rest c').1,
)

pub read_all-Pending :
    (mode : ConvertMode) (sizes : List ℕ) (c : Converter) → Pending mode (read_all mode sizes c) c
unfolding read_all
read_all-Pending mode [] c = (refl, λ e. ground arith)
read_all-Pending mode (size ∷ sizes) c =
    let (none_left, one) = read-Given mode size c in
    first-Pending mode sizes c (read mode size c) none_left one (read_all-Pending mode sizes)
