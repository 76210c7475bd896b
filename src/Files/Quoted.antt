-- ===== src/Files/Quoted.antt =====
-- The arguments of HASH and COMB, written between quotation marks, are read back.
use mathlib.Core.Path.{subst}
use ftpserverlib.Prelude.{
  List, [], ◌∷◌, ◌++◌, Option, none, some, map, ◌≡◌, refl, sym, ap, ◌∙◌, inl, inr, ◌==◌, ==_iff,
  append-nil, append_assoc, Bool-cases,
}
use ftpserverlib.Text.{Bytes, replace_byte, join}
use ftpserverlib.Reply.{drop_cr}
use ftpserverlib.Files.Params.{
  at_start, in_quoted, behind_quote, csv_step, csv_fields, with_field,
  unquote_space_separated_params,
}

-- A field of encoding/csv that may hold any bytes: each quotation mark is doubled.
abbrev doubled : Bytes → Bytes
doubled p = replace_byte b'"' (b'"' ∷ b'"' ∷ []) p

abbrev pub csv_quote : Bytes → Bytes
csv_quote p = b'"' ∷ (doubled p ++ (b'"' ∷ []))

with_no_field : (o : Option (List Bytes)) → with_field none o ≡ o
with_no_field none = refl
with_no_field (some fields) = refl

csv_fields-doubled :
    (p field rest : Bytes)
    → csv_fields (in_quoted field) (doubled p ++ rest) ≡ csv_fields (in_quoted (field ++ p)) rest
unfolding csv_fields csv_step replace_byte
csv_fields-doubled [] field rest = rw (append-nil field) refl
csv_fields-doubled (c ∷ p) field rest =
    let later =
      with_no_field (csv_fields (in_quoted (field ++ (c ∷ []))) (doubled p ++ rest))
      ∙ csv_fields-doubled p (field ++ (c ∷ [])) rest
      ∙ ap (λ f. csv_fields (in_quoted f) rest) (append_assoc field (c ∷ []) p) in
    elim (Bool-cases (c == b'"')) [
      | inl mark ↦
          let is_mark = (==_iff c b'"').0 mark in
          rw (mark) (
            with_no_field _
            ∙ subst
                (λ x.
                  with_field none (csv_fields (in_quoted (field ++ (x ∷ []))) (doubled p ++ rest))
                  ≡ csv_fields (in_quoted (field ++ (c ∷ p))) rest)
                is_mark later)
      | inr other ↦ rw (other) (rw (csv_fields, csv_step, other) later)
    ]

-- One field, and what stands behind it.
csv_fields-csv_quote :
    (p rest : Bytes) → csv_fields at_start (csv_quote p ++ rest) ≡ csv_fields (behind_quote p) rest
unfolding csv_fields csv_step
csv_fields-csv_quote p rest =
    with_no_field _
    ∙ ap (csv_fields (in_quoted [])) (append_assoc (doubled p) (b'"' ∷ []) rest)
    ∙ csv_fields-doubled p [] (b'"' ∷ rest)
    ∙ with_no_field _

csv_fields-join :
    (p : Bytes) (ps : List Bytes)
    → csv_fields at_start (join b' ' (map csv_quote (p ∷ ps))) ≡ some (p ∷ ps)
unfolding csv_fields csv_step join
csv_fields-join p [] =
    ap (csv_fields at_start) (sym (append-nil (csv_quote p))) ∙ csv_fields-csv_quote p []
csv_fields-join p (q ∷ ps) =
    csv_fields-csv_quote p (b' ' ∷ join b' ' (map csv_quote (q ∷ ps)))
    ∙ ap (with_field (some p)) (csv_fields-join q ps)

drop_cr-quoted : (x : Bytes) → drop_cr (x ++ (b'"' ∷ [])) ≡ x ++ (b'"' ∷ [])
unfolding drop_cr
drop_cr-quoted [] = refl
drop_cr-quoted (c ∷ []) = refl
drop_cr-quoted (c ∷ d ∷ x) = ap (◌∷◌ c) (drop_cr-quoted (d ∷ x))

-- The line ends in a quotation mark.
join-quoted :
    (p : Bytes) (ps : List Bytes)
    → (x : Bytes) × (join b' ' (map csv_quote (p ∷ ps)) ≡ (b'"' ∷ x) ++ (b'"' ∷ []))
unfolding join
join-quoted p [] = (doubled p, refl)
join-quoted p (q ∷ ps) =
    let (x, is) = join-quoted q ps in
    (
      (doubled p ++ (b'"' ∷ [])) ++ (b' ' ∷ b'"' ∷ x),
      ap (λ y. csv_quote p ++ (b' ' ∷ y)) is
          ∙ sym (append_assoc (csv_quote p) (b' ' ∷ b'"' ∷ x) (b'"' ∷ [])),
    )

-- A client that writes each argument between quotation marks, with the marks inside doubled, and a
-- space between two of them, is understood: HASH and COMB find just these arguments, whatever
-- spaces and quotation marks are in them.
pub unquote_space_separated_params-csv_quote :
    (p : Bytes) (ps : List Bytes)
    → unquote_space_separated_params (join b' ' (map csv_quote (p ∷ ps))) ≡ some (p ∷ ps)
unfolding unquote_space_separated_params
unquote_space_separated_params-csv_quote p ps =
    let (x, is) = join-quoted p ps in
    rw (is, drop_cr-quoted (b'"' ∷ x)) (ap (csv_fields at_start) (sym is) ∙ csv_fields-join p ps)
