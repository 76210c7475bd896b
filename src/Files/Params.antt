-- ===== src/Files/Params.antt =====
-- unquoteSpaceSeparatedParams of handle_files.go: encoding/csv with a space for its comma, on the
-- one line that a command is.
use ftpserverlib.Prelude.{ℕ, List, [], ◌∷◌, ◌++◌, Option, none, some, ◌==◌, if◌then◌else◌}
use ftpserverlib.Text.{Bytes}
use ftpserverlib.Reply.{drop_cr}

-- Where csv stands in a line: at the start of a field, in a plain or quoted field with the text
-- read so far, or behind the quote that may close a quoted field.
pub data Place : Type 0 where
  at_start : Place
  in_plain in_quoted behind_quote : Bytes → Place

-- The field that a byte ends, if it ends one, and the next place; `none` is a syntax error.
unfoldable pub csv_step : Place → ℕ → Option (Option Bytes × Place)
csv_step at_start c =
    if c == b'"'
    then some (none, in_quoted [])
    else if c == b' '
    then some (some [], at_start)
    else some (none, in_plain (c ∷ []))
csv_step (in_plain field) c =
    if c == b'"'
    then none
    else if c == b' '
    then some (some field, at_start)
    else some (none, in_plain (field ++ (c ∷ [])))
csv_step (in_quoted field) c =
    if c == b'"'
    then some (none, behind_quote field)
    else some (none, in_quoted (field ++ (c ∷ [])))
csv_step (behind_quote field) c =
    if c == b'"'
    then some (none, in_quoted (field ++ (c ∷ [])))
    else if c == b' '
    then some (some field, at_start)
    else none

abbrev pub with_field : Option Bytes → Option (List Bytes) → Option (List Bytes)
with_field f none = none
with_field none (some fields) = some fields
with_field (some f) (some fields) = some (f ∷ fields)

abbrev pub csv_end : Place → Option (List Bytes)
csv_end at_start = some ([] ∷ [])
csv_end (in_plain field) = some (field ∷ [])
csv_end (in_quoted field) = none
csv_end (behind_quote field) = some (field ∷ [])

unfoldable pub csv_fields : Place → Bytes → Option (List Bytes)
csv_fields place [] = csv_end place
csv_fields place (c ∷ s) = elim (csv_step place c) [
  | none ↦ none
  | some (f, next) ↦ with_field f (csv_fields next s)
]

abbrev csv_line : Bytes → Option (List Bytes)
csv_line [] = none
csv_line (c ∷ s) = csv_fields at_start (c ∷ s)

-- `none` is an error of the reader, and an empty line is its io.EOF.
unfoldable pub unquote_space_separated_params : Bytes → Option (List Bytes)
unfolding csv_fields csv_step drop_cr
unquote_space_separated_params params = csv_line (drop_cr params)
