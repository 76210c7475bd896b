-- ===== src/Ascii/Convert.antt =====
-- What the converter gives is the input with its line ends converted, however it is read.
use ftpserverlib.Prelude.{
  ℕ, zero, suc, Bool, true, false, ◌&&◌, [], ◌∷◌, ◌++◌, ◌≡◌, refl, sym, ap, ◌∙◌, ◌⊎◌, inl, inr,
  arith, if◌then◌else◌, ◌==◌, length, append_assoc, Bool-cases,
}
use ftpserverlib.Text.{Bytes, has_byte}
use ftpserverlib.Text.Split.{Free}
use ftpserverlib.Reply.{drop_cr}
use ftpserverlib.Ascii.{newline, carriage, Slice, read_slice, ends_in_cr, line_of, read_line}

abbrev starts_line : Bytes → Bool
starts_line [] = false
starts_line (c ∷ s) = c == newline

-- Every line end, with or without a carriage return, becomes `eol`.
unfoldable pub convert : Bytes → Bytes → Bytes
convert eol [] = []
convert eol (c ∷ s) =
    let rest = convert eol s in
    if c == newline then eol ++ rest else if c == carriage && starts_line s then rest else c ∷ rest

-- A text with no newline that does not end in half a line end is kept.
convert-append :
    (eol x s : Bytes)
    → Free newline x
    → (ends_in_cr x && starts_line s) ≡ false
    → convert eol (x ++ s) ≡ x ++ convert eol s
unfolding convert has_byte ends_in_cr
convert-append eol [] s f e = refl
convert-append eol (c ∷ []) s f e = ground arith
convert-append eol (c ∷ d ∷ x) s f e = let later = convert-append eol (d ∷ x) s in ground arith

-- A line loses its carriage return with its newline.
convert-line :
    (eol x s : Bytes)
    → Free newline x
    → convert eol (x ++ (newline ∷ s)) ≡ drop_cr x ++ (eol ++ convert eol s)
unfolding convert has_byte drop_cr
convert-line eol [] s f = ground arith
convert-line eol (c ∷ []) s f = ground arith
convert-line eol (c ∷ d ∷ x) s f = let later = convert-line eol (d ∷ x) s in ground arith

read_slice-append :
    (n : ℕ) (s : Bytes)
    → Free newline (read_slice n s).text
      × ((read_slice n s).ended ≡ true
          → (read_slice n s).text ++ (newline ∷ (read_slice n s).rest) ≡ s)
      × ((read_slice n s).ended ≡ false → (read_slice n s).text ++ (read_slice n s).rest ≡ s)
      × ((read_slice n s).ended ≡ false
          → (length (read_slice n s).text ≡ n) ⊎ ((read_slice n s).rest ≡ []))
unfolding read_slice has_byte
read_slice-append zero s = ground arith
read_slice-append (suc n) [] = ground arith
read_slice-append (suc n) (c ∷ s) =
    let later = read_slice-append n s in (ground arith, ground arith, ground arith, ground arith)

pub drop_cr-append : (x : Bytes) → ends_in_cr x ≡ true → x ≡ drop_cr x ++ (carriage ∷ [])
unfolding drop_cr ends_in_cr
drop_cr-append [] e = ground arith
drop_cr-append (c ∷ []) e = ground arith
drop_cr-append (c ∷ d ∷ x) e = let later = drop_cr-append (d ∷ x) e in ground arith

drop_cr-Free : (x : Bytes) → Free newline x → Free newline (drop_cr x)
unfolding drop_cr has_byte
drop_cr-Free [] f = f
drop_cr-Free (c ∷ []) f = ground arith
drop_cr-Free (c ∷ d ∷ x) f = let later = drop_cr-Free (d ∷ x) in ground arith

abbrev pub end_of : Bytes → Bool → Bytes
end_of eol ended = if ended then eol else []

-- ReadLine on a slice that is the whole of a text.
line_of-convert :
    (eol : Bytes) (size : ℕ) (s : Bytes) (r : Slice)
    → Free newline r.text
    → (r.ended ≡ true → r.text ++ (newline ∷ r.rest) ≡ s)
    → (r.ended ≡ false → r.text ++ r.rest ≡ s)
    → (r.ended ≡ false → (length r.text ≡ size) ⊎ (r.rest ≡ []))
    → convert eol s
      ≡ (line_of size r).text
        ++ (end_of eol (line_of size r).ended ++ convert eol (line_of size r).rest)
line_of-convert eol size s r f a b d = elim (Bool-cases r.ended) [
  | inl y ↦ rw (y, sym (a y)) (convert-line eol r.text r.rest f)
  | inr n ↦ elim (Bool-cases (length r.text == size && ends_in_cr r.text)) [
    | inl full ↦
        rw (n, full)
          (ap (convert eol) (
              sym (b n)
              ∙ ap (λ x. x ++ r.rest) (drop_cr-append r.text (ground arith))
              ∙ append_assoc (drop_cr r.text) (carriage ∷ []) r.rest)
            ∙ convert-append eol (drop_cr r.text) (carriage ∷ r.rest) (drop_cr-Free r.text f)
                (ground arith))
    | inr part ↦
        rw (n, part, sym (b n))
          (convert-append eol r.text r.rest f
            (elim (d n) [ inl filled ↦ ground arith | inr nothing ↦ rw (nothing) (ground arith) ]))
  ]
]

pub read_line-convert :
    (eol : Bytes) (size : ℕ) (s : Bytes)
    → convert eol s
      ≡ (read_line size s).text
        ++ (end_of eol (read_line size s).ended ++ convert eol (read_line size s).rest)
unfolding read_line
read_line-convert eol size s =
    let (f, a, b, d) = read_slice-append size s in
    line_of-convert eol size s (read_slice size s) f a b d
