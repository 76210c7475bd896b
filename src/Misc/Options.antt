-- ===== src/Misc/Options.antt =====
-- OPTS, TYPE, SYST and SITE.
use ftpserverlib.Codes.{
  status_command_not_implemented, status_not_implemented_param, status_ok,
  status_syntax_error_not_recognised, status_syntax_error_parameters, status_system_type,
}
use ftpserverlib.Prelude.{
  Bool, true, false, List, [], ◌∷◌, ◌++◌, Option, none, some, if◌then◌else◌, ◌||◌,
}
use ftpserverlib.Text.{Bytes, codes, equal, split_n, to_upper, replace_byte}
use ftpserverlib.Errors.{Error}
use ftpserverlib.Session.{
  HashAlgo, TransferType, ascii, binary, Env, M, pure, gets, modify, reply, ◌>>=◌, ◌>>◌,
}
use ftpserverlib.Dirs.{handle_mkdir, handle_rmdir}
use ftpserverlib.Files.{hash_mapping, get_hash_name, handle_chmod, handle_chown, handle_symlink}

-- A key of getHashMapping.
unfoldable pub find_hash : Bytes → List (Bytes × HashAlgo) → Option HashAlgo
unfolding equal
find_hash name [] = none
find_hash name ((key, algo) ∷ mapping) =
    if equal name key then some algo else find_hash name mapping

abbrev pub first : List Bytes → Bytes
first [] = []
first (x ∷ _) = x

abbrev pub second : List Bytes → Bytes
second (_ ∷ y ∷ _) = y
second _ = []

-- The type that TYPE names.
unfoldable pub transfer_type_of : Bytes → Option TransferType
unfolding equal
transfer_type_of param =
    if equal param (codes "I") || equal param (codes "L8")
    then some binary
    else if equal param (codes "A") || (equal param (codes "AN") || equal param (codes "L7"))
    then some ascii
    else none

module _ {W : Type 0} where
  -- handleOptsUtf8
  abbrev opts_utf8 : M W (Option Error)
  opts_utf8 = do reply status_ok (codes "I'm in UTF8 only anyway"); pure none

  abbrev unknown_option : M W (Option Error)
  unknown_option = do
    reply status_syntax_error_not_recognised (codes "Don't know this option")
    pure none

  abbrev select_hash : Bytes → Option HashAlgo → M W (Option Error)
  select_hash name (some algo) = do
    modify (λ c. record c { selected_hash_algo = algo })
    reply status_ok name
    pure none
  select_hash name none = do
    reply status_syntax_error_parameters (codes "Unknown algorithm, current selection not changed")
    pure none

  -- handleOptsHash
  unfoldable pub handle_opts_hash : List Bytes → M W (Option Error)
  handle_opts_hash (name ∷ _) = select_hash name (find_hash name hash_mapping)
  handle_opts_hash [] = do
    current ← gets (λ c. get_hash_name c.selected_hash_algo)
    reply status_ok current
    pure none

  abbrev type_reply : Option TransferType → M W (Option Error)
  type_reply (some binary) = do
    modify (λ c. record c { current_transfer_type = binary })
    reply status_ok (codes "Type set to binary")
    pure none
  type_reply (some ascii) = do
    modify (λ c. record c { current_transfer_type = ascii })
    reply status_ok (codes "Type set to ASCII")
    pure none
  type_reply none = do
    reply status_not_implemented_param (codes "Unsupported transfer type")
    pure none

  unfoldable pub handle_type : Bytes → M W (Option Error)
  handle_type param = type_reply (transfer_type_of (replace_byte b' ' [] (to_upper param)))

module _ {W : Type 0} (env : Env W) where
  abbrev opts_hash_at : Bool → List Bytes → M W (Option Error)
  opts_hash_at true args = handle_opts_hash args
  opts_hash_at false args = unknown_option

  abbrev opts_from : Bool → Bool → List Bytes → M W (Option Error)
  opts_from true hash args = opts_utf8
  opts_from false true args = opts_hash_at env.settings.enable_hash args
  opts_from false false args = unknown_option

  abbrev opts_parts : List Bytes → M W (Option Error)
  opts_parts [] = unknown_option
  opts_parts (name ∷ args) =
      opts_from (equal (to_upper name) (codes "UTF8")) (equal (to_upper name) (codes "HASH")) args

  unfoldable pub handle_opts : Bytes → M W (Option Error)
  handle_opts param = opts_parts (split_n 2 b' ' param)

  abbrev syst_at : Bool → M W (Option Error)
  syst_at true = do reply status_command_not_implemented (codes "SYST is disabled"); pure none
  syst_at false = do reply status_system_type (codes "UNIX Type: L8"); pure none

  unfoldable pub handle_syst : Bytes → M W (Option Error)
  handle_syst _ = syst_at env.settings.disable_syst

  -- The subcommands of SITE, tested in the source's order.
  abbrev pub site_select : Bool → M W (Unit {0}) → M W (Unit {0}) → M W (Unit {0})
  site_select true m n = m
  site_select false m n = n

  abbrev pub site_command : Bytes → Bytes → M W (Unit {0})
  site_command cmd params = site_select (equal cmd (codes "CHMOD")) (handle_chmod env params) (
      site_select (equal cmd (codes "CHOWN")) (handle_chown env params) (
        site_select (equal cmd (codes "SYMLINK")) (handle_symlink env params) (
          site_select (equal cmd (codes "MKDIR")) (handle_mkdir env params) (
            site_select (equal cmd (codes "RMDIR")) (handle_rmdir env params) (
              reply status_syntax_error_not_recognised
                (codes "Unknown SITE subcommand: " ++ cmd))))))

  abbrev pub site_at : Bool → Bytes → M W (Option Error)
  site_at true param = do
    reply status_syntax_error_not_recognised (codes "SITE support is disabled")
    pure none
  site_at false param = do
    let parts = split_n 2 b' ' param
    site_command (to_upper (first parts)) (second parts)
    pure none

  unfoldable pub handle_site : Bytes → M W (Option Error)
  handle_site param = site_at env.settings.disable_site param
