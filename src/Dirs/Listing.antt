-- ===== src/Dirs/Listing.antt =====
-- The listings of handle_dirs.go: LIST, NLST and MLSD, what they list, and the lines that they send.
use ftpserverlib.Codes.{
  status_action_not_taken, status_file_action_not_taken, status_syntax_error_not_recognised,
}
use ftpserverlib.Prelude.{
  ℕ, zero, suc, ◌+◌, ◌-◌, ◌*◌, Bool, true, false, not, ◌&&◌, List, [], ◌∷◌, ◌++◌, Option, none,
  some, ltb, if◌then◌else◌, length,
}
use ftpserverlib.Text.{Bytes, codes, has_prefix, split_n, to_lower}
use ftpserverlib.Text.Decimal.{decimal, format_int}
use ftpserverlib.Errors.{
  Error, sentinel, eof, file_list, wrapped, network_error, file_access_error, error_string,
  is_error,
}
use ftpserverlib.Paths.{dir, join_path, get_relative_path}
use ftpserverlib.Session.{
  Result, ok, err, FileInfo, Civil, Env, ClientDriver, M, pure, panics, gets, call, callback,
  modify, reply, get_driver, ◌>>=◌, ◌>>◌,
}
use ftpserverlib.Transfer.{transfer_open, transfer_close}
use ftpserverlib.Dirs.Defs.{resolve}

-- A text behind so many copies of a byte.
unfoldable pub fill : ℕ → ℕ → Bytes → Bytes
fill zero c s = s
fill (suc n) c s = c ∷ fill n c s

-- `s` behind as many `c` as bring it to the width `n`
abbrev pub pad : ℕ → ℕ → Bytes → Bytes
pad n c s = fill (n - length s) c s

-- Format(dateFormatMLSD)
unfoldable pub format_mlsd : Civil → Bytes
unfolding fill decimal
format_mlsd t =
    pad 4 b'0' (decimal t.year)
    ++ (pad 2 b'0' (decimal t.month)
        ++ (pad 2 b'0' (decimal t.day)
            ++ (pad 2 b'0' (decimal t.hour)
                ++ (pad 2 b'0' (decimal t.minute) ++ pad 2 b'0' (decimal t.second)))))

-- dateFormatStatOldSwitch, in nanoseconds
abbrev stat_old_switch : ℕ
stat_old_switch = 24 * 30 * 6 * 3600 * 1000000000

abbrev list_type : Bool → Bytes
list_type true = codes "dir"
list_type false = codes "file"

-- The text of writeMLSxEntry.
unfoldable pub mlsx_entry : FileInfo → Bytes
unfolding format_mlsd format_int
mlsx_entry file =
    codes "Type="
    ++ list_type file.is_dir
    ++ codes ";Size="
    ++ format_int file.size
    ++ codes ";Modify="
    ++ format_mlsd file.mod_time.utc
    ++ codes "; "
    ++ file.name
    ++ codes "\r\n"

-- fileStat, for a client connected at this time
unfoldable pub file_stat : ℕ → FileInfo → Bytes
unfolding fill format_int
file_stat connected_at file =
    file.mode_text
    ++ codes " 1 ftp ftp "
    ++ pad 12 b' ' (format_int file.size)
    ++ codes " "
    ++ (if ltb (file.mod_time.nanos + stat_old_switch) connected_at
        then file.mod_time.stat_year
        else file.mod_time.stat_time)
    ++ codes " "
    ++ file.name

-- supportedlistArgs
abbrev supported_list_args : List Bytes
supported_list_args = codes "-al" ∷ codes "-la" ∷ codes "-a" ∷ codes "-l" ∷ []

abbrev behind_first : List Bytes → Bytes
behind_first (_ ∷ rest ∷ _) = rest
behind_first _ = []

-- What is left of the arguments without the options in front.
unfoldable pub without_options : Bytes → Bytes
unfolding split_n
without_options args = behind_first (split_n 2 b' ' args)

module _ {W : Type 0} (env : Env W) where
  abbrev args_stat : Bytes → Bytes → Result FileInfo → Bytes
  args_stat args result (ok _) = result
  args_stat args result (err _) = without_options args

  abbrev check_arg : Bool → Bytes → Bytes → M W Bytes
  check_arg false args result = pure result
  check_arg true args result = do
    d ← get_driver env
    r ← call (d.stat args)
    pure (args_stat args result r)

  unfoldable pub check_list_args_loop : List Bytes → Bytes → Bytes → M W Bytes
  check_list_args_loop [] args result = pure result
  check_list_args_loop (arg ∷ rest) args result = do
    result' ← check_arg (has_prefix arg (to_lower args)) args result
    check_list_args_loop rest args result'

  -- checkLISTArgs
  unfoldable pub check_list_args : Bytes → M W Bytes
  check_list_args args = check_list_args_loop supported_list_args args args

  abbrev pub Files : Type 0
  Files = List FileInfo × Bytes × Option Error

  abbrev pub list_read_dir : Bool → ClientDriver W → Bytes → M W Files
  list_read_dir true d list_path = do
    r ← callback env (d.read_dir list_path)
    dir_path ← gets (λ c. c.list_path)
    pure (r.0, dir_path, r.1)
  list_read_dir false d list_path = do
    opened ← call (d.open_dir list_path)
    elim opened [
      | err e ↦ pure ([], [], some (file_access_error (codes "couldn't open directory") e))
      | ok handle ↦ do
        r ← call (d.readdir handle)
        dir_path ← gets (λ c. c.list_path)
        call (d.close_dir handle)
        pure (r.0, dir_path, r.1)
    ]

  abbrev pub list_found : Bool → Bool → ClientDriver W → Bytes → FileInfo → M W Files
  list_found true file_path_allowed d list_path info = list_read_dir d.has_file_list d list_path
  list_found false true d list_path info = do
    dir_path ← gets (λ c. c.list_path)
    pure (info ∷ [], dir dir_path, none)
  list_found false false d list_path info = pure ([], [], some (sentinel file_list))

  abbrev pub list_stat : Bool → ClientDriver W → Bytes → Result FileInfo → M W Files
  list_stat file_path_allowed d list_path (err e) =
      pure ([], [], some (file_access_error (codes "couldn't stat") e))
  list_stat file_path_allowed d list_path (ok info) =
      list_found info.is_dir file_path_allowed d list_path info

  abbrev pub list_param : Bool → Bytes → M W Bytes
  list_param true param = pure param
  list_param false param = check_list_args param

  abbrev pub list_with : Bool → Bytes → ClientDriver W → M W Files
  list_with file_path_allowed list_path d = do
    r ← call (d.stat list_path)
    list_stat file_path_allowed d list_path r

  abbrev pub list_at : Bool → Bytes → M W Files
  list_at file_path_allowed param = do
    list_path ← resolve param
    modify (λ c. record c { list_path = list_path })
    d ← get_driver env
    list_with file_path_allowed list_path d

  -- getFileList
  unfoldable pub get_file_list : Bytes → Bool → M W Files
  unfolding check_list_args check_list_args_loop
  get_file_list param file_path_allowed = do
    param' ← list_param env.settings.disable_list_args param
    list_at file_path_allowed param'

  -- One line after the other, up to the first that cannot be written.
  unfoldable pub write_all : ℕ → List Bytes → M W (Option Error)
  write_all conn [] = pure none
  write_all conn (l ∷ ls) = do
    (written, e) ← call (env.net.write conn l)
    elim e [ none ↦ write_all conn ls | some e' ↦ pure (some e') ]

  abbrev write_empty : Bytes → ℕ → M W (Option Error)
  write_empty text conn = do
    (written, e) ← call (env.net.write conn [])
    pure (elim e [ none ↦ none | some e' ↦ some (network_error text e') ])

  abbrev wrap : (Error → Error) → Option Error → Option Error
  wrap f none = none
  wrap f (some e) = some (f e)

  unfoldable pub list_lines : ℕ → List FileInfo → List Bytes
  list_lines connected_at [] = []
  list_lines connected_at (f ∷ files) =
      (file_stat connected_at f ++ codes "\r\n") ∷ list_lines connected_at files

  unfoldable pub dir_transfer_list : ℕ → List FileInfo → M W (Option Error)
  unfolding write_all list_lines
  dir_transfer_list conn [] = write_empty (codes "error writing LIST entry") conn
  dir_transfer_list conn (f ∷ files) = do
    connected_at ← gets (λ c. c.connected_at)
    e ← write_all conn (list_lines connected_at (f ∷ files))
    pure (wrap (wrapped (codes "error writing LIST entry")) e)

  unfoldable pub mlsd_lines : List FileInfo → List Bytes
  mlsd_lines [] = []
  mlsd_lines (f ∷ files) = mlsx_entry f ∷ mlsd_lines files

  unfoldable pub dir_transfer_mlsd : ℕ → List FileInfo → M W (Option Error)
  unfolding write_all mlsd_lines
  dir_transfer_mlsd conn [] = write_empty (codes "error writing MLSD entry") conn
  dir_transfer_mlsd conn (f ∷ files) = do
    e ← write_all conn (mlsd_lines (f ∷ files))
    pure (wrap (wrapped (codes "error writing MLSD entry")) e)

  unfoldable pub nlst_lines : Bytes → List FileInfo → List Bytes
  nlst_lines relative [] = []
  nlst_lines relative (f ∷ files) =
      (join_path relative f.name ++ codes "\r\n") ∷ nlst_lines relative files

  abbrev nlst_from : ℕ → List FileInfo → Option Bytes → M W (Option Error)
  nlst_from conn files none = panics (codes "getRelativePath does not end")
  nlst_from conn files (some relative) = do
    e ← write_all conn (nlst_lines relative files)
    pure (wrap (network_error (codes "couldn't send NLST data")) e)

  unfoldable pub dir_transfer_nlst : ℕ → List FileInfo → Bytes → M W (Option Error)
  unfolding write_all nlst_lines
  dir_transfer_nlst conn [] parent_dir = write_empty (codes "couldn't send NLST data") conn
  dir_transfer_nlst conn (f ∷ files) parent_dir = do
    cwd ← gets (λ c. c.path)
    nlst_from conn (f ∷ files) (get_relative_path cwd parent_dir)

  -- A list that came with an error other than io.EOF is not sent.
  abbrev pub list_error : Option Error → Option Error
  list_error none = none
  list_error (some e) = if is_error e eof then none else some e

  abbrev list_failed : ℕ → Error → Bool → M W (Option Error)
  list_failed code e true = pure none
  list_failed code e false = do reply code (codes "Could not list: " ++ error_string e); pure none

  abbrev send_to : (ℕ → M W (Option Error)) → Result ℕ → M W (Option Error)
  send_to send (err _) = pure none
  send_to send (ok conn) = do e ← send conn; transfer_close env e; pure none

  -- What the three commands share: send the list, or reply with the code that the command has for
  -- a list that cannot be made, unless the command was aborted.
  abbrev pub list_command : Bytes → ℕ → Option Error → (ℕ → M W (Option Error)) → M W (Option Error)
  list_command info code none send = do r ← transfer_open env info; send_to send r
  list_command info code (some e) send = do
    aborted ← gets (λ c. c.is_transfer_aborted)
    list_failed code e aborted

  unfoldable pub handle_list : Bytes → M W (Option Error)
  handle_list param = do
    r ← get_file_list param true
    list_command (codes "LIST " ++ param) status_file_action_not_taken (list_error r.2)
        (λ conn. dir_transfer_list conn r.0)

  unfoldable pub handle_nlst : Bytes → M W (Option Error)
  handle_nlst param = do
    r ← get_file_list param true
    list_command (codes "NLST " ++ param) status_file_action_not_taken (list_error r.2)
        (λ conn. dir_transfer_nlst conn r.0 r.1)

  abbrev pub handle_mlsd_at : Bool → Bytes → M W (Option Error)
  handle_mlsd_at true param = do
    reply status_syntax_error_not_recognised (codes "MLSD has been disabled")
    pure none
  handle_mlsd_at false param = do
    r ← get_file_list param false
    list_command (codes "MLSD " ++ param) status_action_not_taken (list_error r.2)
        (λ conn. dir_transfer_mlsd conn r.0)

  unfoldable pub handle_mlsd : Bytes → M W (Option Error)
  handle_mlsd param = do
    aborted ← gets (λ c. c.is_transfer_aborted)
    handle_mlsd_at (env.settings.disable_mlsd && not aborted) param
