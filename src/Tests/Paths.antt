-- ===== src/Tests/Paths.antt =====
-- Paths, texts, replies and errors.
use ftpserverlib.Prelude.{ℕ, true, List, ◌-◌, ◌*◌, ◌/◌, [], ◌∷◌, ◌++◌, some, ◌≡◌, refl, arith}
use ftpserverlib.Prelude.Int.{pos}
use ftpserverlib.Text.{Bytes, codes, equal, join, has_byte, has_prefix}
use ftpserverlib.Text.Decimal.{parse_int, parse_int-decimal, number, decimal, digits}
use ftpserverlib.Paths.{abs_path, get_relative_path, dotdot, is_abs}
use ftpserverlib.Paths.Clean.{IsCleanAbs, abs_path-IsCleanAbs}
use ftpserverlib.Paths.Relative.{get_relative_path-abs_path}
use ftpserverlib.Errors.{
  Error, sentinel, wrapped, storage_exceeded, file_name_not_allowed, Wraps, get_error_code,
  get_error_code-Wraps,
}
use ftpserverlib.Reply.{write_message, get_message_lines, multiline_answer}
use ftpserverlib.Reply.RoundTrip.{read_reply, read_reply-write_message, read_reply-multiline_answer}
use ftpserverlib.Dirs.{cdup_target, quote_doubling}
use ftpserverlib.Dirs.Cwd.{cdup_target-abs_path}
use ftpserverlib.Dirs.Pwd.{read_quoted, read_quoted-quote_doubling}
use ftpserverlib.Session.{ok, to_crlf}
use ftpserverlib.Ascii.{new_ascii_converter, line_end}
use ftpserverlib.Ascii.Convert.{convert}
use ftpserverlib.Ascii.Reads.{read_all}
use ftpserverlib.Ascii.Ends.{read_all-convert}
use ftpserverlib.Data.{pasv_text, parse_port_addr}
use ftpserverlib.Data.Address.{parse_port_addr-pasv_text}

abbrev a_b : Bytes
a_b = codes "/a/b"

a_b-IsCleanAbs : IsCleanAbs a_b
unfolding join equal has_byte
a_b-IsCleanAbs = record {
  elements = codes "a" ∷ codes "b" ∷ [];
  names = (refl, (refl, tt));
  path_is = refl;
}

a_c-IsCleanAbs : IsCleanAbs (codes "/a/c")
unfolding join equal has_byte
a_c-IsCleanAbs = record {
  elements = codes "a" ∷ codes "c" ∷ [];
  names = (refl, (refl, tt));
  path_is = refl;
}

abs_path-IsCleanAbs_example : IsCleanAbs (abs_path a_b (codes "../x//y/."))
unfolding is_abs
abs_path-IsCleanAbs_example = abs_path-IsCleanAbs a_b (codes "../x//y/.") refl

get_relative_path-abs_path_example :
    (r : Bytes) × (get_relative_path a_b (codes "/a/c") ≡ some r) × (abs_path a_b r ≡ codes "/a/c")
get_relative_path-abs_path_example =
    get_relative_path-abs_path a_b (codes "/a/c") a_b-IsCleanAbs a_c-IsCleanAbs

cdup_target-abs_path_example : cdup_target a_b ≡ abs_path a_b dotdot
cdup_target-abs_path_example = cdup_target-abs_path a_b a_b-IsCleanAbs

read_quoted-quote_doubling_example :
    read_quoted (quote_doubling (codes "/a\"b") ++ (b'"' ∷ b' ' ∷ codes "is"))
    ≡ some (codes "/a\"b", b' ' ∷ codes "is")
read_quoted-quote_doubling_example =
    read_quoted-quote_doubling (codes "/a\"b") (codes "is") b' ' (omega arith)

parse_int-decimal_example : parse_int 64 (decimal 2121) ≡ number (pos 2121)
parse_int-decimal_example = parse_int-decimal 64 2121 (omega arith) (omega arith)

read_reply-write_message_example :
    read_reply (write_message 257 (codes "one\ntwo") ++ (codes "200 OK" ∷ []))
    ≡ some (get_message_lines (codes "one\ntwo"), codes "200 OK" ∷ [])
read_reply-write_message_example =
    read_reply-write_message 257 (codes "one\ntwo") (codes "200 OK" ∷ []) (omega arith)
      (omega arith)

read_reply-multiline_answer_example :
    read_reply (multiline_answer 211 (codes "Server status") (codes "banner" ∷ []) ++ [])
    ≡ some (codes "Server status" ∷ codes "banner" ∷ codes "End" ∷ [], [])
unfolding decimal digits has_prefix
read_reply-multiline_answer_example =
    read_reply-multiline_answer 211 (codes "Server status") (codes "banner" ∷ []) [] (omega arith)
      (omega arith) ((refl, refl), tt)

full : Error
full = wrapped (codes "could not write") (sentinel storage_exceeded)

get_error_code-Wraps_example :
    (Wraps storage_exceeded full → get_error_code full 550 ≡ 552)
    × (¬ Wraps storage_exceeded full
        → Wraps file_name_not_allowed full
        → get_error_code full 550 ≡ 553)
    × (¬ Wraps storage_exceeded full
        → ¬ Wraps file_name_not_allowed full
        → get_error_code full 550 ≡ 550)
get_error_code-Wraps_example = get_error_code-Wraps full 550

parse_port_addr-pasv_text_example :
    (pasv_text (codes "10" ∷ codes "0" ∷ codes "0" ∷ codes "1" ∷ []) 2121
      ≡ codes "Entering Passive Mode ("
        ++ (join b',' (
              codes "10"
              ∷ codes "0"
              ∷ codes "0"
              ∷ codes "1"
              ∷ decimal (2121 / 256)
              ∷ decimal (2121 - 2121 / 256 * 256)
              ∷ [])
            ++ codes ")"))
    × (parse_port_addr (
          join b',' (
            codes "10"
            ∷ codes "0"
            ∷ codes "0"
            ∷ codes "1"
            ∷ decimal (2121 / 256)
            ∷ decimal (2121 - 2121 / 256 * 256)
            ∷ []))
        ≡ ok (
            join b'.' (codes "10" ∷ codes "0" ∷ codes "0" ∷ codes "1" ∷ [])
            ++ (b':' ∷ decimal 2121)))
parse_port_addr-pasv_text_example =
    parse_port_addr-pasv_text (codes "10") (codes "0") (codes "0") (codes "1") refl refl refl refl
      2121 (omega arith)

-- A text with both kinds of line ends, read with the smallest buffers.
abbrev two_lines : Bytes
two_lines = codes "ab\r\nc\n"

abbrev small_buffers : List ℕ
small_buffers = 3 ∷ 4 ∷ 3 ∷ 3 ∷ 3 ∷ 3 ∷ 3 ∷ []

read_all-convert_example :
    let r = read_all to_crlf small_buffers (new_ascii_converter two_lines) in
    (r.at_end ≡ true) × (r.out ≡ convert (line_end to_crlf) two_lines)
read_all-convert_example =
    read_all-convert to_crlf small_buffers two_lines
      (
        omega arith,
        (
          omega arith,
          (omega arith, (omega arith, (omega arith, (omega arith, (omega arith, tt))))),
        ),
      )
      (omega arith)
