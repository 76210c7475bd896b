-- ===== src/Files/Copy.antt =====
-- io.Copy and io.CopyN of the standard library as doFileTransfer, combineFiles and
-- computeHashForFile of handle_files.go call them. A source that has failed fails again with the
-- same error, so the converter, whose buffer hides an error once, ends as its source does.
use ftpserverlib.Prelude.{
  ℕ, zero, suc, ◌+◌, List, [], ◌∷◌, ◌++◌, Option, none, some, if◌then◌else◌, ◌==◌, ltb, length,
  take,
}
use ftpserverlib.Prelude.Int.{ℤ, pos, negsuc}
use ftpserverlib.Text.{Bytes}
use ftpserverlib.Errors.{Error, sentinel, eof, short_write, invalid_write}
use ftpserverlib.Session.{Call, ConvertMode}
use ftpserverlib.Ascii.{Converter, new_ascii_converter, read}

unfoldable pub concat : List Bytes → Bytes
concat [] = []
concat (x ∷ xs) = x ++ concat xs

-- The buffer of io.Copy.
abbrev pub copy_size : ℕ
copy_size = 32768

-- So many reads of a converter by io.Copy, or fewer if its input ends.
unfoldable pub read_chunks : ConvertMode → ℕ → Converter → List Bytes
read_chunks mode zero c = []
read_chunks mode (suc n) c = elim (read mode copy_size c) [
  | none ↦ []
  | some (given, c') ↦ given ∷ read_chunks mode n c'
]

-- What io.Copy reads from a source, through a converter if there is a mode. Each read that does
-- not end takes a byte of the input at least, so one read more than there are bytes is enough.
unfoldable pub through : Option ConvertMode → List Bytes → List Bytes
through none chunks = chunks
through (some mode) chunks =
    read_chunks mode (suc (length (concat chunks))) (new_ascii_converter (concat chunks))

-- The error of a Write, of its count, or of a count that is short.
abbrev pub write_error : ℕ → ℕ → Option Error → Option Error
write_error size written (some e) = some e
write_error size written none =
    if ltb size written
    then some (sentinel invalid_write)
    else if written == size
    then none
    else some (sentinel short_write)

abbrev pub write_count : ℕ → ℕ → ℕ
write_count size written = if ltb size written then 0 else written

module _ {W : Type 0} where
  -- The loop of io.Copy. An empty read is not written. The last error is the source's.
  unfoldable pub copy_chunks :
      (Bytes → Call W (ℕ × Option Error))
      → List Bytes
      → Option Error
      → ℕ
      → Call W (ℕ × Option Error)
  copy_chunks put [] e written w = ((written, e), w)
  copy_chunks put ([] ∷ xs) e written w = copy_chunks put xs e written w
  copy_chunks put ((c ∷ x) ∷ xs) e written w =
      let ((n, ew), w') = put (c ∷ x) w in
      let total = written + write_count (length (c ∷ x)) n in
      let rest = copy_chunks put xs e total w' in
      elim (write_error (length (c ∷ x)) n ew) [ some e' ↦ ((total, some e'), w') | none ↦ rest ]

  -- io.Copy: the bytes written, and the error
  unfoldable pub copy_through :
      Option ConvertMode
      → Call W (List Bytes × Option Error)
      → (Bytes → Call W (ℕ × Option Error))
      → Call W (ℕ × Option Error)
  copy_through mode source put w =
      let ((chunks, e), w') = source w in copy_chunks put (through mode chunks) e 0 w'

-- The error of io.CopyN once the source has ended: a source that is too short is io.EOF.
abbrev too_few : Option Error → Option Error
too_few (some e) = some e
too_few none = some (sentinel eof)

-- io.CopyN into a hash, which takes every write: what it was given, and the error
unfoldable pub copy_n : ℤ → List Bytes × Option Error → Bytes × Option Error
copy_n (pos n) (chunks, e) =
    (take n (concat chunks), if ltb (length (concat chunks)) n then too_few e else none)
copy_n (negsuc n) (chunks, e) = ([], none)
