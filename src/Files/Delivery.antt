-- ===== src/Files/Delivery.antt =====
-- What io.Copy delivers: a first part of what its source gives, and all of it where it reports no
-- error.
use ftpserverlib.Prelude.{
  ℕ, zero, suc, ◌+◌, ◌≤◌, true, false, List, [], ◌∷◌, ◌++◌, Option, none, some, ◌≡◌, refl, sym, ap,
  ◌∙◌, inl, inr, arith, length, take, All, append-nil, append_assoc, length-append, Option-cases,
}
use ftpserverlib.Text.{Bytes}
use ftpserverlib.Errors.{Error, eof, is_error}
use ftpserverlib.Session.{Call, ConvertMode}
use ftpserverlib.Ascii.{Converter, new_ascii_converter, line_end, read}
use ftpserverlib.Ascii.Convert.{convert}
use ftpserverlib.Ascii.Reads.{read_all}
use ftpserverlib.Ascii.Ends.{read_all-convert}
use ftpserverlib.Files.Copy.{
  concat, copy_size, read_chunks, through, write_error, write_count, copy_chunks,
}

-- The bytes that a copy is to deliver.
abbrev pub expected : Option ConvertMode → Bytes → Bytes
expected none text = text
expected (some mode) text = convert (line_end mode) text

abbrev sizes : ℕ → List ℕ
sizes zero = []
sizes (suc n) = copy_size ∷ sizes n

sizes-big : (n : ℕ) → All (λ size. 3 ≤ size) (sizes n)
sizes-big zero = tt
sizes-big (suc n) = (omega arith, sizes-big n)

length-sizes : (n : ℕ) → length (sizes n) ≡ n
length-sizes zero = refl
length-sizes (suc n) = ap suc (length-sizes n)

read_chunks-read_all :
    (mode : ConvertMode) (n : ℕ) (c : Converter)
    → concat (read_chunks mode n c) ≡ (read_all mode (sizes n) c).out
unfolding read_chunks read_all concat
read_chunks-read_all mode zero c = refl
read_chunks-read_all mode (suc n) c = elim (Option-cases (read mode copy_size c)) [
  | inl e ↦ ground arith
  | inr ((given, c'), e) ↦ let later = read_chunks-read_all mode n c' in ground arith
]

pub through-expected :
    (mode : Option ConvertMode) (chunks : List Bytes)
    → concat (through mode chunks) ≡ expected mode (concat chunks)
unfolding through
through-expected none chunks = refl
through-expected (some mode) chunks =
    let n = suc (length (concat chunks)) in
    read_chunks-read_all mode n (new_ascii_converter (concat chunks))
    ∙ (read_all-convert mode (sizes n) (concat chunks) (sizes-big n)
        (omega (arith, length-sizes n))).1

take-all : (x : Bytes) → take (length x) x ≡ x
take-all [] = refl
take-all (c ∷ x) = ap (◌∷◌ c) (take-all x)

pub take-nil : (n : ℕ) → take {A = ℕ} n [] ≡ []
take-nil zero = refl
take-nil (suc n) = refl

take-append : (x y : Bytes) (n : ℕ) → take (length x + n) (x ++ y) ≡ x ++ take n y
take-append [] y n = ground arith
take-append (c ∷ x) y n =
    let moved : suc (length x) + n ≡ suc (length x + n) = omega arith in
    ap (λ m. take m (c ∷ (x ++ y))) moved ∙ ap (◌∷◌ c) (take-append x y n)

take-within : (n : ℕ) (x y : Bytes) → n ≤ length x → take n (x ++ y) ≡ take n x
take-within zero x y l = refl
take-within (suc n) [] y l = ground arith
take-within (suc n) (c ∷ x) y l = ap (◌∷◌ c) (take-within n x y (omega (arith, l)))

-- No error, or io.EOF with what wraps it.
abbrev pub IsEnd : Option Error → Type 0
IsEnd e = (x : Error) → e ≡ some x → is_error x eof ≡ true

write_error-not_eof :
    (size n : ℕ) (ew : Option Error) (e' : Error)
    → ((e : Error) → ew ≡ some e → is_error e eof ≡ false)
    → write_error size n ew ≡ some e'
    → is_error e' eof ≡ false
unfolding is_error
write_error-not_eof size n (some e) e' h b = h e' b
write_error-not_eof size n none e' h b = ground arith

module _ {W : Type 0} (contents : W → Bytes) where
  -- A writer that keeps to the contract of io.Writer: it appends the bytes that it counts, the
  -- first of those it is given, and reports an error where they are not all. io.EOF is an error of reads.
  abbrev pub Appends : (Bytes → Call W (ℕ × Option Error)) → Type 0
  Appends put =
      (x : Bytes) (w : W)
      → ((put x w).0.0 ≤ length x)
        × (contents (put x w).1 ≡ contents w ++ take (put x w).0.0 x)
        × ((put x w).0.1 ≡ none → (put x w).0.0 ≡ length x)
        × ((e : Error) → (put x w).0.1 ≡ some e → is_error e eof ≡ false)

  abbrev pub Delivered : Bytes → Option Error → W → Option Error → W → Type 0
  Delivered text source_error w e w' =
      (k : ℕ) × (k ≤ length text)
      × (contents w' ≡ contents w ++ take k text)
      × (IsEnd e → k ≡ length text)
      × (e ≡ none → source_error ≡ none)

  pub Delivered-whole :
      (text : Bytes) (source_error : Option Error) (w : W) (e : Option Error) (w' : W)
      → Delivered text source_error w e w'
      → IsEnd e
      → contents w' ≡ contents w ++ text
  Delivered-whole text source_error w e w' (k, l, app, all, ended) end =
      app ∙ ap (λ x. contents w ++ x) (ap (λ m. take m text) (all end) ∙ take-all text)

  pub copy_chunks-Delivered :
      (put : Bytes → Call W (ℕ × Option Error)) (chunks : List Bytes) (e : Option Error)
      (written : ℕ) (w : W)
      → Appends put
      → let ((n, e'), w') = copy_chunks put chunks e written w in
        Delivered (concat chunks) e w e' w'
  unfolding copy_chunks concat
  copy_chunks-Delivered put [] e written w a =
      (0, omega arith, sym (append-nil (contents w)), λ n. refl, λ n. n)
  copy_chunks-Delivered put ([] ∷ xs) e written w a = copy_chunks-Delivered put xs e written w a
  copy_chunks-Delivered put ((c ∷ x) ∷ xs) e written w a =
      let ((n, ew), w') = put (c ∷ x) w in
      let (within, appended, complete, no_eof) = a (c ∷ x) w in
      elim (Option-cases (write_error (length (c ∷ x)) n ew)) [
        | inr (e', bad) ↦
            rw (copy_chunks, bad)
              (
                n,
                omega (arith, within, length-append (c ∷ x) (concat xs)),
                appended
                    ∙ ap (λ t. contents w ++ t) (sym (take-within n (c ∷ x) (concat xs) within)),
                λ h.
                    let ended = h e' refl in
                    let other = write_error-not_eof (length (c ∷ x)) n ew e' no_eof bad in
                    ground arith,
                λ h. cc,
              )
        | inl fine ↦
            let total = written + write_count (length (c ∷ x)) n in
            let (k, l, app, all, ended) = copy_chunks-Delivered put xs e total w' a in
            let exact : n ≡ length (c ∷ x) = complete (ground arith) in
            rw (copy_chunks, fine)
              (
                length (c ∷ x) + k,
                omega (arith, l, length-append (c ∷ x) (concat xs)),
                app
                    ∙ ap (λ t. t ++ take k (concat xs))
                        (appended
                          ∙ ap (λ t. contents w ++ t)
                              (ap (λ m. take m (c ∷ x)) exact ∙ take-all (c ∷ x)))
                    ∙ append_assoc (contents w) (c ∷ x) (take k (concat xs))
                    ∙ ap (λ t. contents w ++ t) (sym (take-append (c ∷ x) (concat xs) k)),
                λ h. omega (arith, all h, length-append (c ∷ x) (concat xs)),
                ended,
              )
      ]
