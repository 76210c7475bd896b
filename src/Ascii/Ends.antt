-- ===== src/Ascii/Ends.antt =====
-- The converter reaches the end of its input, and has then given all of it.
use ftpserverlib.Prelude.{
  ℕ, zero, suc, ◌+◌, ◌-◌, ◌≤◌, ◌<◌, Bool, true, ◌&&◌, List, [], ◌∷◌, ◌++◌, Option, none, some, ◌≡◌,
  refl, sym, ap, ◌∙◌, inl, inr, arith, ◌==◌, ltb, length, Bool-cases, append-nil, All,
  length-append,
}
use ftpserverlib.Text.{Bytes}
use ftpserverlib.Reply.{drop_cr}
use ftpserverlib.Session.{ConvertMode}
use ftpserverlib.Ascii.{
  carriage, buffer_size, read_slice, ends_in_cr, read_line, Converter, new_ascii_converter,
  line_end, give, read,
}
use ftpserverlib.Ascii.Convert.{convert, drop_cr-append}
use ftpserverlib.Ascii.Reads.{length-drop, pending, Reads, read_all, read_all-Pending, ltb_iff}

drop_cr-shorter : (x : Bytes) → length (drop_cr x) ≤ length x
unfolding drop_cr
drop_cr-shorter [] = omega arith
drop_cr-shorter (c ∷ []) = ground arith
drop_cr-shorter (c ∷ d ∷ x) = omega (arith, drop_cr-shorter (d ∷ x))

drop_cr-length : (x : Bytes) → ends_in_cr x ≡ true → length x ≡ length (drop_cr x) + 1
drop_cr-length x e = ap length (drop_cr-append x e) ∙ length-append (drop_cr x) (carriage ∷ [])

read_slice-length :
    (n : ℕ) (s : Bytes)
    → (length (read_slice n s).text + length (read_slice n s).rest ≤ length s)
      × ((read_slice n s).ended ≡ true
          → length (read_slice n s).text + length (read_slice n s).rest < length s)
      × (0 < n → 0 < length s → length (read_slice n s).rest < length s)
unfolding read_slice
read_slice-length zero s = ground arith
read_slice-length (suc n) [] = ground arith
read_slice-length (suc n) (c ∷ s) =
    let later = read_slice-length n s in (ground arith, ground arith, ground arith)

read_line-shorter :
    (s : Bytes)
    → 0 < length s
    → (length (read_line buffer_size s).text + length (read_line buffer_size s).rest ≤ length s)
      × (length (read_line buffer_size s).rest < length s)
unfolding read_line
read_line-shorter s l =
    let r = read_slice buffer_size s in
    let (both, ended, progress) = read_slice-length buffer_size s in
    let shorter = drop_cr-shorter r.text in
    let one = drop_cr-length r.text in
    elim (Bool-cases r.ended) [
      | inl y ↦ (ground arith, ground arith)
      | inr n ↦ elim (Bool-cases (length r.text == buffer_size && ends_in_cr r.text)) [
        | inl full ↦ let exact = one (ground arith) in (ground arith, ground arith)
        | inr part ↦ (ground arith, ground arith)
      ]
    ]

abbrev left : Converter → ℕ
left c = length c.remaining + length c.input

give-left :
    (mode : ConvertMode) (size : ℕ) (text : Bytes) (c : Converter)
    → 3 ≤ size
    → (left (give mode size text c).1 ≤ length text + length c.input)
      × (0 < length text → left (give mode size text c).1 < length text + length c.input)
unfolding give
give-left mode size text c big =
    let dropped = length-drop (size - 2) text in
    elim (Bool-cases (ltb (size - 2) (length text))) [
      | inl more ↦ rw (more) (omega (arith, dropped), λ l. omega (arith, dropped))
      | inr fits ↦ rw (fits) (omega arith, λ l. omega arith)
    ]

read-left_of :
    (mode : ConvertMode) (size : ℕ) (input : Bytes) (last_newline : Bool) (remaining out : Bytes)
    (c' : Converter)
    → 3 ≤ size
    → read mode size (record { input = input; last_newline = last_newline; remaining = remaining })
      ≡ some (out, c')
    → left c' < length remaining + length input
unfolding read
read-left_of mode size input last (x ∷ r) out c' big e =
    let c : Converter = record { input = input; last_newline = last; remaining = x ∷ r } in
    let less = (give-left mode size (x ∷ r) c big).1 (omega arith) in ground arith
read-left_of mode size [] last [] out c' big e = ground arith
read-left_of mode size (x ∷ s) last [] out c' big e =
    let l = read_line buffer_size (x ∷ s) in
    let c : Converter = record { input = l.rest; last_newline = l.ended; remaining = [] } in
    let (kept, less) = give-left mode size l.text c big in
    let (both, progress) = read_line-shorter (x ∷ s) (omega arith) in
    elim (Bool-cases (ltb 0 (length l.text))) [
      | inl some_text ↦ let lesser = less ((ltb_iff 0 (length l.text)).0 some_text) in ground arith
      | inr no_text ↦ ground arith
    ]

first-ends :
    (mode : ConvertMode) (sizes : List ℕ) (c : Converter) (o : Option (Bytes × Converter))
    → ((out : Bytes) (c' : Converter) → o ≡ some (out, c') → left c' < left c)
    → ((c' : Converter) → left c' < length sizes → (read_all mode sizes c').at_end ≡ true)
    → left c < suc (length sizes)
    → (elim o as (λ _. Reads) [
      | none ↦ record { out = []; at_end = true; after = c }
      | some (given, c') ↦ record (read_all mode sizes c') {
        out = given ++ (read_all mode sizes c').out;
      }
    ]).at_end
      ≡ true
first-ends mode sizes c none less rest enough = refl
first-ends mode sizes c (some (given, c')) less rest enough =
    rest c' (omega (arith, less given c' refl, enough))

read_all-ends :
    (mode : ConvertMode) (sizes : List ℕ) (c : Converter)
    → All (λ size. 3 ≤ size) sizes
    → left c < length sizes
    → (read_all mode sizes c).at_end ≡ true
unfolding read_all
read_all-ends mode [] c big enough = ground arith
read_all-ends mode (size ∷ sizes) c (big, bigs) enough =
    first-ends mode sizes c (read mode size c)
      (λ out c'. read-left_of mode size c.input c.last_newline c.remaining out c' big)
      (λ c'. read_all-ends mode sizes c' bigs) enough

-- However the converter is read, with buffers of at least three bytes, it gives in all the input
-- with its line ends converted, and reports the end after at most one read for each byte and one
-- more: the lines that its own buffer cuts and the rests that a short buffer leaves make no
-- difference.
pub read_all-convert :
    (mode : ConvertMode) (sizes : List ℕ) (input : Bytes)
    → All (λ size. 3 ≤ size) sizes
    → length input < length sizes
    → let r = read_all mode sizes (new_ascii_converter input) in
      (r.at_end ≡ true) × (r.out ≡ convert (line_end mode) input)
read_all-convert mode sizes input big enough =
    let c = new_ascii_converter input in
    let r = read_all mode sizes c in
    let ends = read_all-ends mode sizes c big (omega arith) in
    let (all, nothing) = read_all-Pending mode sizes c in
    (
      ends,
      sym (append-nil r.out)
          ∙ ap (λ x. r.out ++ x) (sym (nothing ends))
          ∙ all
          ∙ unfold pending in refl,
    )
