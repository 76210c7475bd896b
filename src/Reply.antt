-- ===== src/Reply.antt =====
-- Replies on the control connection: getMessageLines, writeMessage, writeLine and multilineAnswer
-- of client_handler.go, as the lines that they write.
pub mod RoundTrip
use ftpserverlib.Prelude.{
  ℕ, zero, suc, ◌+◌, Bool, true, false, List, [], ◌∷◌, ◌++◌, ltb, ◌==◌, if◌then◌else◌, length,
}
use ftpserverlib.Text.{Bytes, codes, split}
use ftpserverlib.Text.Decimal.{decimal}

abbrev pub newline : ℕ
newline = b'\n'

-- bufio.ScanLines drops one carriage return from the end of a line.
unfoldable pub drop_cr : Bytes → Bytes
drop_cr [] = []
drop_cr (c ∷ []) = if c == b'\r' then [] else c ∷ []
drop_cr (c ∷ d ∷ s) = c ∷ drop_cr (d ∷ s)

-- No line stands behind the last line end.
unfoldable pub drop_last_empty : List Bytes → List Bytes
drop_last_empty [] = []
drop_last_empty ([] ∷ []) = []
drop_last_empty ((c ∷ l) ∷ []) = (c ∷ l) ∷ []
drop_last_empty (l ∷ m ∷ r) = l ∷ drop_last_empty (m ∷ r)

-- bufio.MaxScanTokenSize: a scanner stops at a line that its buffer cannot hold.
abbrev pub max_scan_token : ℕ
max_scan_token = 65536

unfoldable pub scan : List Bytes → List Bytes
unfolding drop_cr
scan [] = []
scan (l ∷ ls) = if ltb (length l) max_scan_token then drop_cr l ∷ scan ls else []

abbrev pub or_one_empty : List Bytes → List Bytes
or_one_empty [] = [] ∷ []
or_one_empty (l ∷ ls) = l ∷ ls

unfoldable pub get_message_lines : Bytes → List Bytes
unfolding scan drop_last_empty split
get_message_lines message = or_one_empty (scan (drop_last_empty (split newline message)))

abbrev pub continued : ℕ → Bytes → Bytes
continued code line = decimal code ++ (b'-' ∷ line)

abbrev pub closing : ℕ → Bytes → Bytes
closing code line = decimal code ++ (b' ' ∷ line)

-- writeMessage's loop: every line but the last is marked as continued.
unfoldable pub write_lines : ℕ → List Bytes → List Bytes
write_lines code [] = []
write_lines code (line ∷ []) = closing code line ∷ []
write_lines code (line ∷ next ∷ lines) = continued code line ∷ write_lines code (next ∷ lines)

unfoldable pub write_message : ℕ → Bytes → List Bytes
unfolding write_lines
write_message code message = write_lines code (get_message_lines message)

-- multilineAnswer around the lines that its caller writes.
unfoldable pub multiline_answer : ℕ → Bytes → List Bytes → List Bytes
multiline_answer code message body =
    continued code message ∷ (body ++ (closing code (codes "End") ∷ []))

-- writeLine.
unfoldable pub wire : List Bytes → Bytes
wire [] = []
wire (line ∷ lines) = line ++ (b'\r' ∷ b'\n' ∷ wire lines)
