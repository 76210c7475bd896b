-- ===== src/Dirs/Defs.antt =====
-- The commands on directories of handle_dirs.go: CWD, MKD, RMD, CDUP, PWD and SITE MKDIR and RMDIR.
use ftpserverlib.Codes.{
  status_action_not_taken, status_file_ok, status_path_created, status_syntax_error_not_recognised,
}
use ftpserverlib.Prelude.{
  ℕ, ◌-◌, Bool, true, false, not, ◌&&◌, [], ◌∷◌, ◌++◌, Option, none, some, if◌then◌else◌, length,
  take,
}
use ftpserverlib.Text.{Bytes, codes, equal, has_suffix, has_byte, replace_byte}
use ftpserverlib.Errors.{Error, error_string}
use ftpserverlib.Paths.{abs_path, split_dir, slash}
use ftpserverlib.Session.{
  Result, ok, err, FileInfo, Env, M, pure, gets, call, modify, reply, get_driver, ◌>>=◌, ◌>>◌,
}

-- quoteDoubling
unfoldable pub quote_doubling : Bytes → Bytes
unfolding has_byte replace_byte
quote_doubling s = if not (has_byte b'"' s) then s else replace_byte b'"' (b'"' ∷ b'"' ∷ []) s

-- 0o755
abbrev dir_mode : ℕ
dir_mode = 0o755

-- The directory that CDUP goes to from a working directory.
unfoldable pub cdup_target : Bytes → Bytes
cdup_target path =
    let parent = split_dir path in
    if not (equal parent (slash ∷ [])) && has_suffix (slash ∷ []) parent
    then take (length parent - 1) parent
    else parent

module _ {W : Type 0} where
  -- absPath on the client's working directory
  abbrev pub resolve : Bytes → M W Bytes
  resolve param = gets (λ c. abs_path c.path param)

  -- A reply that depends on the error of the call before it.
  abbrev pub replied : Option Error → M W (Unit {0}) → (Error → M W (Unit {0})) → M W (Option Error)
  replied none success failure = success >> pure none
  replied (some e) success failure = failure e >> pure none

module _ {W : Type 0} (env : Env W) where
  abbrev cwd_stat : Bytes → Result FileInfo → M W (Option Error)
  cwd_stat p (err e) = do
    reply status_action_not_taken (codes "CD issue: " ++ error_string e)
    pure none
  cwd_stat p (ok info) = elim info.is_dir [
    | true ↦ do
      modify (λ c. record c { path = p })
      reply status_file_ok (codes "CD worked on " ++ p)
      pure none
    | false ↦ do
      reply status_action_not_taken
          (codes "Can't change directory to " ++ p ++ codes ": Not a Directory")
      pure none
  ]

  unfoldable pub handle_cwd : Bytes → M W (Option Error)
  handle_cwd param = do p ← resolve param; d ← get_driver env; r ← call (d.stat p); cwd_stat p r

  abbrev mkd_reply : Bytes → Option Error → M W (Option Error)
  mkd_reply p none = do
    reply status_path_created (codes "Created dir \"" ++ quote_doubling p ++ codes "\"")
    pure none
  mkd_reply p (some e) = do
    reply status_action_not_taken
        (codes "Could not create \"" ++ quote_doubling p ++ codes "\" : " ++ error_string e)
    pure none

  unfoldable pub handle_mkd : Bytes → M W (Option Error)
  handle_mkd param = do
    p ← resolve param
    d ← get_driver env
    e ← call (d.mkdir p dir_mode)
    mkd_reply p e

  abbrev mkdir_reply : Bytes → Option Error → M W (Unit {0})
  mkdir_reply p none = reply status_file_ok (codes "Created dir " ++ p)
  mkdir_reply p (some e) =
      reply status_action_not_taken
        (codes "Couldn't create dir " ++ p ++ codes ": " ++ error_string e)

  abbrev handle_mkdir_at : Bool → Bytes → M W (Unit {0})
  handle_mkdir_at true params = reply status_syntax_error_not_recognised (codes "Missing path")
  handle_mkdir_at false params = do
    p ← resolve params
    d ← get_driver env
    e ← call (d.mkdir_all p dir_mode)
    mkdir_reply p e

  unfoldable pub handle_mkdir : Bytes → M W (Unit {0})
  handle_mkdir params = handle_mkdir_at (equal params []) params

  abbrev rmd_reply : Bytes → Option Error → M W (Option Error)
  rmd_reply p none = do reply status_file_ok (codes "Deleted dir " ++ p); pure none
  rmd_reply p (some e) = do
    reply status_action_not_taken
        (codes "Could not delete dir " ++ p ++ codes ": " ++ error_string e)
    pure none

  unfoldable pub handle_rmd : Bytes → M W (Option Error)
  handle_rmd param = do
    p ← resolve param
    d ← get_driver env
    e ← call (λ w. elim d.has_remove_dir [ true ↦ d.remove_dir p w | false ↦ d.remove p w ])
    rmd_reply p e

  abbrev rmdir_reply : Bytes → Option Error → M W (Unit {0})
  rmdir_reply p none = reply status_file_ok (codes "Removed dir " ++ p)
  rmdir_reply p (some e) =
      reply status_action_not_taken
        (codes "Couldn't remove dir " ++ p ++ codes ": " ++ error_string e)

  abbrev handle_rmdir_at : Bool → Bytes → M W (Unit {0})
  handle_rmdir_at true params = reply status_syntax_error_not_recognised (codes "Missing path")
  handle_rmdir_at false params = do
    p ← resolve params
    d ← get_driver env
    e ← call (d.remove_all p)
    rmdir_reply p e

  unfoldable pub handle_rmdir : Bytes → M W (Unit {0})
  handle_rmdir params = handle_rmdir_at (equal params []) params

  abbrev cdup_stat : Bytes → Result FileInfo → M W (Option Error)
  cdup_stat parent (ok info) = do
    modify (λ c. record c { path = parent })
    reply status_file_ok (codes "CDUP worked on " ++ parent)
    pure none
  cdup_stat parent (err e) = do
    reply status_action_not_taken (codes "CDUP issue: " ++ error_string e)
    pure none

  unfoldable pub handle_cdup : Bytes → M W (Option Error)
  handle_cdup _ = do
    path ← gets (λ c. c.path)
    d ← get_driver env
    r ← call (d.stat (cdup_target path))
    cdup_stat (cdup_target path) r

  unfoldable pub handle_pwd : Bytes → M W (Option Error)
  handle_pwd _ = do
    path ← gets (λ c. c.path)
    reply status_path_created
        (codes "\"" ++ quote_doubling path ++ codes "\" is the current directory")
    pure none
