-- ===== src/Files/Site.antt =====
-- SITE CHMOD, CHOWN and SYMLINK of handle_files.go.
use ftpserverlib.Codes.{
  status_action_not_taken, status_command_not_implemented, status_ok,
  status_syntax_error_parameters,
}
use ftpserverlib.Prelude.{ℕ, Bool, true, false, List, [], ◌∷◌, ◌++◌, Option, none, some}
use ftpserverlib.Prelude.Int.{ℤ, pos, negsuc}
use ftpserverlib.Text.{Bytes, codes, split, split_n}
use ftpserverlib.Text.Decimal.{Number, number, bad_syntax, out_of_range, parse_int, parse_uint}
use ftpserverlib.Text.Quote.{quote}
use ftpserverlib.Errors.{Error, foreign, error_string}
use ftpserverlib.Session.{Result, ok, err, Env, M, panics, call, reply, get_driver, ◌>>=◌}
use ftpserverlib.Dirs.{resolve}

-- strconv.NumError
abbrev num_error : Bytes → Bytes → Bytes → Error
num_error fn text reason =
    foreign (codes "strconv." ++ fn ++ codes ": parsing " ++ quote text ++ codes ": " ++ reason)

-- A number, or the error of the function of strconv that read it.
abbrev pub to_result : Bytes → Bytes → Number → Result ℤ
to_result fn text (number n) = ok n
to_result fn text bad_syntax = err (num_error fn text (codes "invalid syntax"))
to_result fn text out_of_range = err (num_error fn text (codes "value out of range"))

abbrev pub index_out_of_range : Bytes
index_out_of_range = codes "runtime error: index out of range [1] with length 1"

abbrev mode_of : ℤ → ℕ
mode_of (pos n) = n
mode_of (negsuc n) = 0

-- An id that is no number is 0.
abbrev id_of : Number → ℤ
id_of (number n) = n
id_of bad_syntax = pos 0
id_of out_of_range = pos 0

abbrev owner_of : List Bytes → ℤ × ℤ
owner_of [] = (pos 0, pos 0)
owner_of (user ∷ []) = (id_of (parse_int 32 user), pos 0)
owner_of (user ∷ group ∷ _) = (id_of (parse_int 32 user), id_of (parse_int 32 group))

module _ {W : Type 0} (env : Env W) where
  abbrev chmod_reply : Option Error → M W (Unit {0})
  chmod_reply none = reply status_ok (codes "SITE CHMOD command successful")
  chmod_reply (some e) = reply status_action_not_taken (error_string e)

  abbrev chmod_mode : Bytes → Result ℤ → M W (Unit {0})
  chmod_mode path (err e) = chmod_reply (some e)
  chmod_mode path (ok n) = do d ← get_driver env; e ← call (d.chmod path (mode_of n)); chmod_reply e

  -- `spl[1]` panics where there is no second part
  abbrev chmod_parts : List Bytes → M W (Unit {0})
  chmod_parts (mode ∷ name ∷ _) = do
    path ← resolve name
    chmod_mode path (to_result (codes "ParseUint") mode (parse_uint 8 32 mode))
  chmod_parts _ = panics index_out_of_range

  unfoldable pub handle_chmod : Bytes → M W (Unit {0})
  handle_chmod params = chmod_parts (split_n 2 b' ' params)

  abbrev chown_reply : Option Error → M W (Unit {0})
  chown_reply none = reply status_ok (codes "Done !")
  chown_reply (some e) = reply status_action_not_taken (codes "Couldn't chown: " ++ error_string e)

  abbrev chown_parts : List Bytes → M W (Unit {0})
  chown_parts (owner ∷ name ∷ []) = do
    path ← resolve name
    d ← get_driver env
    e ← call (d.chown path (owner_of (split b':' owner)).0 (owner_of (split b':' owner)).1)
    chown_reply e
  chown_parts _ = reply status_syntax_error_parameters (codes "bad command")

  unfoldable pub handle_chown : Bytes → M W (Unit {0})
  handle_chown params = chown_parts (split_n 3 b' ' params)

  abbrev symlink_reply : Option Error → M W (Unit {0})
  symlink_reply none = reply status_ok (codes "Done !")
  symlink_reply (some e) =
      reply status_action_not_taken (codes "Couldn't symlink: " ++ error_string e)

  abbrev symlink_with : Bool → Bytes → Bytes → M W (Unit {0})
  symlink_with false oldname newname =
      reply status_command_not_implemented (codes "This extension hasn't been implemented !")
  symlink_with true oldname newname = do
    d ← get_driver env
    e ← call (d.symlink oldname newname)
    symlink_reply e

  abbrev symlink_parts : List Bytes → M W (Unit {0})
  symlink_parts (old ∷ new ∷ []) = do
    oldname ← resolve old
    newname ← resolve new
    d ← get_driver env
    symlink_with d.has_symlink oldname newname
  symlink_parts _ = reply status_syntax_error_parameters (codes "bad command")

  unfoldable pub handle_symlink : Bytes → M W (Unit {0})
  handle_symlink params = symlink_parts (split_n 3 b' ' params)
