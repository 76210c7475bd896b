-- ===== src/Files/Meta.antt =====
-- DELE, RNFR, RNTO, SIZE, STAT of a file, MLST, ALLO, REST, MDTM and MFMT of handle_files.go.
pub mod Time
pub mod TimeTrip
use ftpserverlib.Codes.{
  status_action_not_taken, status_bad_command_sequence, status_directory_status,
  status_file_action_not_taken, status_file_action_pending, status_file_ok, status_file_status,
  status_not_implemented, status_ok, status_syntax_error_not_recognised,
  status_syntax_error_parameters,
}
use Time.{parse_time, format_rfc3339}
use ftpserverlib.Prelude.{
  ℕ, Bool, true, false, not, List, [], ◌∷◌, ◌++◌, Option, none, some, if◌then◌else◌,
}
use ftpserverlib.Prelude.Int.{ℤ}
use ftpserverlib.Text.{Bytes, codes, equal, split_n}
use ftpserverlib.Text.Decimal.{format_int, parse_int}
use ftpserverlib.Text.Quote.{quote}
use ftpserverlib.Errors.{Error, error_string, get_error_code}
use ftpserverlib.Reply.{continued, closing}
use ftpserverlib.Session.{
  Result, ok, err, FileInfo, Civil, is_ascii, Env, ClientDriver, M, pure, gets, call, callback,
  modify, reply, write_line, write_raw, get_driver, ◌>>=◌, ◌>>◌,
}
use ftpserverlib.Dirs.{resolve, replied, mlsx_entry, file_stat, format_mlsd}
use ftpserverlib.Files.Site.{to_result}

-- "Couldn't access %s: %v"
abbrev access_failed : Bytes → Error → Bytes
access_failed path e = codes "Couldn't access " ++ path ++ codes ": " ++ error_string e

module _ {W : Type 0} (env : Env W) where
  abbrev dele_reply : Bytes → Option Error → M W (Option Error)
  dele_reply path none = do reply status_file_ok (codes "Removed file " ++ path); pure none
  dele_reply path (some e) = do
    reply status_action_not_taken (codes "Couldn't delete " ++ path ++ codes ": " ++ error_string e)
    pure none

  unfoldable pub handle_dele : Bytes → M W (Option Error)
  handle_dele param = do
    path ← resolve param
    d ← get_driver env
    e ← call (d.remove path)
    dele_reply path e

  abbrev rnfr_stat : Bytes → Result FileInfo → M W (Option Error)
  rnfr_stat path (ok _) = do
    reply status_file_action_pending (codes "Sure, give me a target")
    modify (λ c. record c { ctx_rnfr = path })
    pure none
  rnfr_stat path (err e) = do reply status_action_not_taken (access_failed path e); pure none

  unfoldable pub handle_rnfr : Bytes → M W (Option Error)
  handle_rnfr param = do
    path ← resolve param
    d ← get_driver env
    r ← call (d.stat path)
    rnfr_stat path r

  abbrev rename_reply : Bytes → Bytes → Option Error → M W (Option Error)
  rename_reply src dst none = do
    reply status_file_ok (codes "Done !")
    modify (λ c. record c { ctx_rnfr = [] })
    pure none
  rename_reply src dst (some e) = do
    reply (get_error_code e status_action_not_taken)
        (codes "Couldn't rename " ++ src ++ codes " to " ++ dst ++ codes ": " ++ error_string e)
    pure none

  abbrev rnto_from : Bool → Bytes → Bytes → M W (Option Error)
  rnto_from true src dst = do
    reply status_bad_command_sequence (codes "RNFR is expected before RNTO")
    pure none
  rnto_from false src dst = do
    d ← get_driver env
    e ← call (d.rename src dst)
    rename_reply src dst e

  unfoldable pub handle_rnto : Bytes → M W (Option Error)
  handle_rnto param = do
    dst ← resolve param
    src ← gets (λ c. c.ctx_rnfr)
    rnto_from (equal src []) src dst

  abbrev size_stat : Bytes → Result FileInfo → M W (Option Error)
  size_stat path (ok info) = do reply status_file_status (format_int info.size); pure none
  size_stat path (err e) = do reply status_action_not_taken (access_failed path e); pure none

  abbrev size_in : Bool → Bytes → M W (Option Error)
  size_in true param = do
    reply status_action_not_taken (codes "SIZE not allowed in ASCII mode")
    pure none
  size_in false param = do
    path ← resolve param
    d ← get_driver env
    r ← call (d.stat path)
    size_stat path r

  unfoldable pub handle_size : Bytes → M W (Option Error)
  handle_size param = do
    in_ascii ← gets (λ c. is_ascii c.current_transfer_type)
    size_in in_ascii param

  -- The "%s" is the source's.
  unfoldable pub stat_lines : ℕ → List FileInfo → M W (Unit {0})
  stat_lines connected_at [] = pure tt
  stat_lines connected_at (f ∷ files) = do
    write_line (codes " %s" ++ file_stat connected_at f)
    stat_lines connected_at files

  abbrev pub stat_listed : Bytes → List FileInfo × Option Error → M W (Option Error)
  stat_listed param (files, some e) = do
    reply status_file_action_not_taken (codes "Could not list: " ++ error_string e)
    pure none
  stat_listed param (files, none) = do
    write_line (continued status_directory_status (codes "STAT " ++ param))
    connected_at ← gets (λ c. c.connected_at)
    stat_lines connected_at files
    write_line (closing status_directory_status (codes "End"))
    pure none

  abbrev pub stat_opened : Bytes → ClientDriver W → Result ℕ → M W (Option Error)
  stat_opened param d (err e) = do
    reply status_file_action_not_taken (codes "Could not list: " ++ error_string e)
    pure none
  stat_opened param d (ok handle) = do
    r ← call (d.readdir handle)
    call (d.close_dir handle)
    stat_listed param r

  abbrev pub stat_dir : Bool → Bytes → Bytes → ClientDriver W → M W (Option Error)
  stat_dir true param path d = do r ← callback env (d.read_dir path); stat_listed param r
  stat_dir false param path d = do opened ← call (d.open_dir path); stat_opened param d opened

  abbrev pub stat_one : Bytes → FileInfo → M W (Option Error)
  stat_one param info = do
    write_line (continued status_file_status (codes "STAT " ++ param))
    connected_at ← gets (λ c. c.connected_at)
    write_line (codes " " ++ file_stat connected_at info)
    write_line (closing status_file_status (codes "End"))
    pure none

  abbrev pub stat_kind : Bool → Bytes → Bytes → ClientDriver W → FileInfo → M W (Option Error)
  stat_kind false param path d info = stat_one param info
  stat_kind true param path d info = stat_dir d.has_file_list param path d

  abbrev pub stat_found : Bytes → Bytes → ClientDriver W → Result FileInfo → M W (Option Error)
  stat_found param path d (err e) = do
    reply status_file_action_not_taken (codes "Could not STAT: " ++ error_string e)
    pure none
  stat_found param path d (ok info) = stat_kind info.is_dir param path d info

  abbrev pub stat_at : Bytes → Bytes → ClientDriver W → M W (Option Error)
  stat_at param path d = do r ← call (d.stat path); stat_found param path d r

  -- handleSTATFile
  unfoldable pub handle_stat_file : Bytes → M W (Option Error)
  unfolding stat_lines
  handle_stat_file param = do path ← resolve param; d ← get_driver env; stat_at param path d

  abbrev mlst_stat : Result FileInfo → M W (Option Error)
  mlst_stat (err e) = do
    reply status_action_not_taken (codes "Could not list: " ++ error_string e)
    pure none
  mlst_stat (ok info) = do
    write_line (continued status_file_ok (codes "File details"))
    write_raw (b' ' ∷ mlsx_entry info)
    write_line (closing status_file_ok (codes "End"))
    pure none

  abbrev handle_mlst_at : Bool → Bytes → M W (Option Error)
  handle_mlst_at true param = do
    reply status_syntax_error_not_recognised (codes "MLST has been disabled")
    pure none
  handle_mlst_at false param = do
    path ← resolve param
    d ← get_driver env
    r ← call (d.stat path)
    mlst_stat r

  unfoldable pub handle_mlst : Bytes → M W (Option Error)
  handle_mlst param = handle_mlst_at env.settings.disable_mlst param

  abbrev allocate_reply : Option Error → M W (Option Error)
  allocate_reply none = do reply status_ok (codes "Done !"); pure none
  allocate_reply (some e) = do
    reply status_action_not_taken (codes "Couldn't alloInt: " ++ error_string e)
    pure none

  abbrev allocate : Bool → ClientDriver W → ℤ → M W (Option Error)
  allocate false d size = do
    reply status_not_implemented (codes "This extension hasn't been implemented !")
    pure none
  allocate true d size = do e ← call (d.allocate_space size); allocate_reply e

  abbrev allo_size : Result ℤ → M W (Option Error)
  allo_size (err e) = do
    reply status_syntax_error_parameters (codes "Couldn't parse size: " ++ error_string e)
    pure none
  allo_size (ok size) = do d ← get_driver env; allocate d.has_allocate d size

  unfoldable pub handle_allo : Bytes → M W (Option Error)
  handle_allo param = allo_size (to_result (codes "Atoi") param (parse_int 64 param))

  abbrev rest_in : Bool → ℤ → M W (Option Error)
  rest_in true size = do
    reply status_syntax_error_parameters (codes "Resuming transfers not allowed in ASCII mode")
    pure none
  rest_in false size = do
    modify (λ c. record c { ctx_rest = size })
    reply status_file_action_pending (codes "OK")
    pure none

  abbrev rest_size : Result ℤ → M W (Option Error)
  rest_size (err e) = do
    reply status_action_not_taken (codes "Couldn't parse size: " ++ error_string e)
    pure none
  rest_size (ok size) = do
    in_ascii ← gets (λ c. is_ascii c.current_transfer_type)
    rest_in in_ascii size

  unfoldable pub handle_rest : Bytes → M W (Option Error)
  handle_rest param = rest_size (to_result (codes "ParseInt") param (parse_int 64 param))

  abbrev mdtm_stat : Bytes → Result FileInfo → M W (Option Error)
  mdtm_stat path (ok info) = do reply status_file_status (format_mlsd info.mod_time.utc); pure none
  mdtm_stat path (err e) = do reply status_action_not_taken (access_failed path e); pure none

  unfoldable pub handle_mdtm : Bytes → M W (Option Error)
  handle_mdtm param = do
    path ← resolve param
    d ← get_driver env
    r ← call (d.stat path)
    mdtm_stat path r

  abbrev mfmt_reply : Bytes → Bytes → Bytes → Civil → Option Error → M W (Option Error)
  mfmt_reply text name path mtime none = do
    reply status_file_status (codes "Modify=" ++ text ++ codes "; " ++ name)
    pure none
  mfmt_reply text name path mtime (some e) = do
    reply status_action_not_taken (
        codes "Couldn't set mtime "
        ++ quote (format_rfc3339 mtime)
        ++ codes " for "
        ++ quote path
        ++ codes ", err: "
        ++ error_string e)
    pure none

  abbrev mfmt_time : Bytes → Bytes → Option Civil → M W (Option Error)
  mfmt_time text name none = do
    reply status_syntax_error_parameters (
        codes "Couldn't parse mtime, given: "
        ++ text
        ++ codes ", err: "
        ++ error_string (env.time_error text))
    pure none
  mfmt_time text name (some mtime) = do
    path ← resolve name
    d ← get_driver env
    e ← call (d.chtimes path mtime mtime)
    mfmt_reply text name path mtime e

  abbrev mfmt_params : Bytes → List Bytes → M W (Option Error)
  mfmt_params param (text ∷ name ∷ []) = mfmt_time text name (parse_time text)
  mfmt_params param _ = do
    reply status_syntax_error_not_recognised
        (codes "Couldn't set mtime, not enough params, given: " ++ param)
    pure none

  unfoldable pub handle_mfmt : Bytes → M W (Option Error)
  handle_mfmt param = mfmt_params param (split_n 2 b' ' param)
