-- ===== src/Misc/Features.antt =====
-- FEAT and AVBL.
use ftpserverlib.Codes.{
  status_action_not_taken, status_file_status, status_not_implemented, status_system_status,
}
use ftpserverlib.Prelude.{
  ℕ, Bool, true, false, not, List, [], ◌∷◌, ◌++◌, Option, none, some, if◌then◌else◌,
}
use ftpserverlib.Prelude.Int.{ℤ}
use ftpserverlib.Text.{Bytes, codes, equal}
use ftpserverlib.Text.Decimal.{format_int}
use ftpserverlib.Errors.{Error, error_string}
use ftpserverlib.Reply.{continued}
use ftpserverlib.Session.{
  Result, ok, err, FileInfo, HashAlgo, Settings, Env, ClientDriver, M, pure, gets, call, reply,
  write_line, get_driver, ◌>>=◌, ◌>>◌,
}
use ftpserverlib.Dirs.{resolve}
use ftpserverlib.Files.{hash_mapping, get_hash_name}

abbrev when_set : Bool → List Bytes → List Bytes
when_set b names = if b then names else []

-- The names of the algorithms, with a star behind the selected one.
unfoldable pub hash_features : HashAlgo → List (Bytes × HashAlgo) → Bytes
unfolding equal
hash_features selected [] = []
hash_features selected ((key, algo) ∷ mapping) =
    key
    ++ (if equal (get_hash_name algo) (get_hash_name selected) then b'*' ∷ [] else [])
    ++ (b';' ∷ hash_features selected mapping)

-- The features of a server with these settings: `tls` where the driver has a TLS configuration,
-- `space` where the client's driver tells the available space.
unfoldable pub features : Settings → Bool → Bool → Bytes → List Bytes
features settings tls space hash_line =
    (codes "CLNT"
      ∷ codes "UTF8"
      ∷ codes "SIZE"
      ∷ codes "MDTM"
      ∷ codes "REST STREAM"
      ∷ codes "EPRT"
      ∷ codes "EPSV"
      ∷ [])
    ++ when_set (not settings.disable_mlsd) (codes "MLSD" ∷ [])
    ++ when_set (not settings.disable_mlst) (codes "MLST" ∷ [])
    ++ when_set (not settings.disable_mfmt) (codes "MFMT" ∷ [])
    ++ when_set tls (codes "AUTH TLS" ∷ codes "PBSZ" ∷ codes "PROT" ∷ [])
    ++ when_set settings.enable_hash (
        hash_line
        ∷ codes "XCRC"
        ∷ codes "MD5"
        ∷ codes "XMD5"
        ∷ codes "XSHA"
        ∷ codes "XSHA1"
        ∷ codes "XSHA256"
        ∷ codes "XSHA512"
        ∷ [])
    ++ when_set settings.enable_comb (codes "COMB" ∷ [])
    ++ when_set space (codes "AVBL" ∷ [])

module _ {W : Type 0} where
  unfoldable pub feature_lines : List Bytes → M W (Unit {0})
  feature_lines [] = pure tt
  feature_lines (f ∷ fs) = do write_line (b' ' ∷ f); feature_lines fs

module _ {W : Type 0} (env : Env W) where
  abbrev has_config : Bool × Option Error → Bool
  has_config (config, none) = config
  has_config (config, some e) = false

  -- A type assertion on a nil interface fails.
  abbrev tells_space : Option ℕ → Bool
  tells_space none = false
  tells_space (some n) = (env.main.driver n).has_available_space

  -- the deferred reply, which runs however the method ends: nothing panics after it is deferred,
  -- since drivers do not panic
  unfoldable pub feat_end : List Bytes → M W (Option Error)
  feat_end names = do feature_lines names; reply status_system_status (codes "end"); pure none

  abbrev feat_answer : Bool → Bytes → M W (Option Error)
  feat_answer tls hash_line = do
    space ← gets (λ c. tells_space c.driver)
    feat_end (features env.settings tls space hash_line)

  unfoldable pub feat_with : Bool → Bool → M W (Option Error)
  feat_with false tls = feat_answer tls []
  feat_with true tls = do
    selected ← gets (λ c. c.selected_hash_algo)
    order ← call (env.range_order hash_mapping)
    feat_answer tls (hash_features selected order)

  unfoldable pub handle_feat : Bytes → M W (Option Error)
  unfolding feat_with
  handle_feat _ = do
    write_line (continued status_system_status (codes " These are my features"))
    config ← call env.main.get_tls_config
    feat_with env.settings.enable_hash (has_config config)

  abbrev avbl_space : Bytes → Result ℤ → M W (Option Error)
  avbl_space path (err e) = do
    reply status_action_not_taken
        (codes "Couldn't get space for path " ++ path ++ codes ": " ++ error_string e)
    pure none
  avbl_space path (ok available) = do reply status_file_status (format_int available); pure none

  abbrev avbl_stat : ClientDriver W → Bytes → Result FileInfo → M W (Option Error)
  avbl_stat d path (err e) = do
    reply status_action_not_taken (codes "Couldn't access " ++ path ++ codes ": " ++ error_string e)
    pure none
  avbl_stat d path (ok info) = elim info.is_dir [
    | false ↦ do reply status_action_not_taken (path ++ codes ": is not a directory"); pure none
    | true ↦ do r ← call (d.get_available_space path); avbl_space path r
  ]

  abbrev avbl_at : Bool → Bytes → M W (Option Error)
  avbl_at false param = do
    reply status_not_implemented (codes "This extension hasn't been implemented !")
    pure none
  avbl_at true param = do
    path ← resolve param
    d ← get_driver env
    r ← call (d.stat path)
    avbl_stat d path r

  unfoldable pub handle_avbl : Bytes → M W (Option Error)
  handle_avbl param = do space ← gets (λ c. tells_space c.driver); avbl_at space param
