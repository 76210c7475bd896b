-- ===== src/Ascii.antt =====
-- asciiConverter of asciiconverter.go, on a bufio.Reader over the bytes that are still to come.
pub mod Convert
pub mod Reads
pub mod Ends
use ftpserverlib.Prelude.{
  ℕ, zero, suc, ◌+◌, ◌-◌, Bool, true, false, not, ◌&&◌, List, [], ◌∷◌, ◌++◌, Option, none, some,
  if◌then◌else◌, ◌==◌, ltb, length, take, drop,
}
use ftpserverlib.Text.{Bytes, codes}
use ftpserverlib.Reply.{drop_cr}
use ftpserverlib.Session.{ConvertMode, to_crlf, to_lf}

abbrev pub newline : ℕ
newline = b'\n'

abbrev pub carriage : ℕ
carriage = b'\r'

abbrev pub buffer_size : ℕ
buffer_size = 4096

-- The bytes up to the first newline within a full buffer, whether it was there, and what is left.
pub record Slice : Type 0 where
  pub text : Bytes
  pub ended : Bool
  pub rest : Bytes

abbrev pub with_byte : ℕ → Slice → Slice
with_byte c s = record s { text = c ∷ s.text }

-- ReadSlice of bufio.Reader
unfoldable pub read_slice : ℕ → Bytes → Slice
read_slice zero s = record { text = []; ended = false; rest = s }
read_slice (suc n) [] = record { text = []; ended = false; rest = [] }
read_slice (suc n) (c ∷ s) =
    let later = read_slice n s in
    if c == newline then record { text = []; ended = true; rest = s } else with_byte c later

unfoldable pub ends_in_cr : Bytes → Bool
ends_in_cr [] = false
ends_in_cr (c ∷ []) = c == carriage
ends_in_cr (c ∷ d ∷ s) = ends_in_cr (d ∷ s)

-- ReadLine's line: a full buffer leaves a carriage return at its end for the next call.
abbrev pub line_of : ℕ → Slice → Slice
line_of size s =
    if s.ended
    then record s { text = drop_cr s.text }
    else if length s.text == size && ends_in_cr s.text
    then record s { text = drop_cr s.text; rest = carriage ∷ s.rest }
    else s

-- ReadLine of bufio.Reader with a buffer of this size, on input that is not at its end
unfoldable pub read_line : ℕ → Bytes → Slice
read_line size s = line_of size (read_slice size s)

-- The converter; `last_newline` says what UnreadByte and ReadByte find.
pub record Converter : Type 0 where
  pub input : Bytes
  pub last_newline : Bool
  pub remaining : Bytes

abbrev pub new_ascii_converter : Bytes → Converter
new_ascii_converter input = record { input = input; last_newline = false; remaining = [] }

abbrev pub line_end : ConvertMode → Bytes
line_end to_crlf = carriage ∷ newline ∷ []
line_end to_lf = newline ∷ []

-- What Read does with its data, for a buffer of `size` bytes.
unfoldable pub give : ConvertMode → ℕ → Bytes → Converter → Bytes × Converter
give mode size given c =
    if ltb (size - 2) (length given)
    then (take (size - 2) given, record c { remaining = drop (size - 2) given })
    else (given ++ (if c.last_newline then line_end mode else []), record c { remaining = [] })

abbrev fresh_line : ConvertMode → ℕ → Slice → Bytes × Converter
fresh_line mode size l =
    give mode size l.text (record { input = l.rest; last_newline = l.ended; remaining = [] })

-- Read; no result is the end of the input. The buffer has at least two bytes.
unfoldable pub read : ConvertMode → ℕ → Converter → Option (Bytes × Converter)
read mode size c = elim c.remaining [
  | x ∷ r ↦ some (give mode size (x ∷ r) c)
  | [] ↦ elim c.input [
    | [] ↦ none
    | x ∷ s ↦ some (fresh_line mode size (read_line buffer_size (x ∷ s)))
  ]
]
