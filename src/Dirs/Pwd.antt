-- ===== src/Dirs/Pwd.antt =====
-- How PWD and MKD show a path between quotation marks.
use ftpserverlib.Prelude.{
  ℕ, Bool, true, false, [], ◌∷◌, ◌++◌, Option, none, some, ◌≡◌, ◌≢◌, refl, sym, ap, ◌∙◌, inl, inr,
  arith, if◌then◌else◌, ◌==◌, Bool-cases, ==_iff,
}
use ftpserverlib.Text.{Bytes, has_byte, replace_byte}
use ftpserverlib.Dirs.Defs.{quote_doubling}

abbrev quotation : ℕ
quotation = b'"'

abbrev prepend : ℕ → Option (Bytes × Bytes) → Option (Bytes × Bytes)
prepend c none = none
prepend c (some (text, rest)) = some (c ∷ text, rest)

-- How RFC 959 has a client read the text behind the first quotation mark: a doubled mark is one
-- of the text, a single one ends it. The flag says that a mark was just read.
read_from : Bool → Bytes → Option (Bytes × Bytes)
read_from false [] = none
read_from true [] = some ([], [])
read_from false (c ∷ s) =
    let inside = read_from false s in
    let marked = read_from true s in if c == quotation then marked else prepend c inside
read_from true (c ∷ s) =
    let inside = read_from false s in
    if c == quotation then prepend quotation inside else some ([], c ∷ s)

unfoldable pub read_quoted : Bytes → Option (Bytes × Bytes)
unfolding read_from
read_quoted s = read_from false s

doubled : Bytes → Bytes
doubled s = replace_byte quotation (quotation ∷ quotation ∷ []) s

doubled-free : (s : Bytes) → has_byte quotation s ≡ false → doubled s ≡ s
unfolding doubled has_byte replace_byte
doubled-free [] h = refl
doubled-free (c ∷ s) h =
    let rest = doubled-free s in
    elim (Bool-cases (c == quotation)) [
      | inl y ↦ ground arith
      | inr n ↦ rw (n) (ap (◌∷◌ c) (rest (ground arith)))
    ]

quote_doubling-doubled : (s : Bytes) → quote_doubling s ≡ doubled s
unfolding quote_doubling doubled
quote_doubling-doubled s = elim (Bool-cases (has_byte quotation s)) [
  | inl y ↦ rw (y) refl
  | inr n ↦ rw (n) (sym (doubled-free s n))
]

read_from-doubled :
    (s rest : Bytes) (c : ℕ)
    → (c == quotation) ≡ false
    → read_from false (doubled s ++ (quotation ∷ c ∷ rest)) ≡ some (s, c ∷ rest)
unfolding doubled replace_byte read_from
read_from-doubled [] rest c n = ground arith
read_from-doubled (d ∷ s) rest c n =
    let later = read_from-doubled s rest c n in
    elim (Bool-cases (d == quotation)) [
      | inl y ↦
          let same = (==_iff d quotation).0 y in
          rw (y) (ap (prepend quotation) later ∙ ap (λ x. some (x ∷ s, c ∷ rest)) (sym same))
      | inr m ↦ rw (m) (rw (m) (ap (prepend d) later))
    ]

-- A client reads back the path that PWD shows, whatever quotation marks it holds: behind the first
-- mark of the reply it finds the path itself, and then the rest of the reply.
pub read_quoted-quote_doubling :
    (path rest : Bytes) (c : ℕ)
    → c ≢ quotation
    → read_quoted (quote_doubling path ++ (quotation ∷ c ∷ rest)) ≡ some (path, c ∷ rest)
unfolding read_quoted
read_quoted-quote_doubling path rest c n =
    rw (quote_doubling-doubled path) (read_from-doubled path rest c (ground arith))
