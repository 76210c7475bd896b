-- ===== src/Files/Hash.antt =====
-- HASH, XCRC, MD5, XSHA and their kin: handleGenericHash, computeHashForFile and
-- getPartialHASHRange of handle_files.go, and the names of the algorithms of client_handler.go.
use ftpserverlib.Codes.{
  status_action_not_taken, status_action_not_taken_no_file, status_command_not_implemented,
  status_file_ok, status_file_status, status_syntax_error_parameters,
}
use ftpserverlib.Prelude.{
  ℕ, suc, ◌+◌, Bool, true, false, not, List, [], ◌∷◌, ◌++◌, Option, none, some, if◌then◌else◌,
}
use ftpserverlib.Prelude.Int.{ℤ, pos, negsuc, sub_ℕ, is_positive}
use ftpserverlib.Text.{Bytes, codes}
use ftpserverlib.Text.Decimal.{format_int, parse_int}
use ftpserverlib.Errors.{
  Error, sentinel, eof, unknown_hash, wrapped, file_access_error, error_string, is_error,
}
use ftpserverlib.Paths.{abs_path}
use ftpserverlib.Session.{
  Result, ok, err, FileInfo, HashAlgo, crc32, md5, sha1, sha256, sha512, unknown_algo, Env,
  ClientDriver, M, pure, gets, call, reply, get_driver, ◌>>=◌, ◌>>◌,
}
use ftpserverlib.Files.Transfers.{get_file_handle, read_only}
use ftpserverlib.Files.Copy.{copy_n}
use ftpserverlib.Files.Params.{unquote_space_separated_params}
use ftpserverlib.Files.Site.{to_result}

-- getHashMapping, in the order of the source
abbrev pub hash_mapping : List (Bytes × HashAlgo)
hash_mapping =
    (codes "CRC32", crc32)
    ∷ (codes "MD5", md5)
    ∷ (codes "SHA-1", sha1)
    ∷ (codes "SHA-256", sha256)
    ∷ (codes "SHA-512", sha512)
    ∷ []

-- getHashName
abbrev pub get_hash_name : HashAlgo → Bytes
get_hash_name crc32 = codes "CRC32"
get_hash_name md5 = codes "MD5"
get_hash_name sha1 = codes "SHA-1"
get_hash_name sha256 = codes "SHA-256"
get_hash_name sha512 = codes "SHA-512"
get_hash_name unknown_algo = []

abbrev pub is_known : HashAlgo → Bool
is_known unknown_algo = false
is_known _ = true

-- end - start, which wraps around in an int64 only beyond every file's size
abbrev pub minus : ℤ → ℤ → ℤ
minus (pos a) (pos b) = sub_ℕ a b
minus (pos a) (negsuc b) = pos (a + suc b)
minus (negsuc a) (pos b) = negsuc (a + b)
minus (negsuc a) (negsuc b) = sub_ℕ b a

-- The offset that an argument gives, with the text that its error names.
abbrev offset : Bytes → Bytes → Bytes → Result ℤ
offset what named arg = elim (to_result (codes "ParseInt") arg (parse_int 64 arg)) [
  | ok n ↦ ok n
  | err e ↦ err (wrapped (codes "invalid " ++ what ++ codes " offset " ++ named) e)
]

abbrev range_end : ℤ → Result ℤ → Result (ℤ × ℤ)
range_end start (ok end) = ok (start, end)
range_end start (err e) = err e

abbrev range_from : ℤ → List Bytes → Result ℤ → Result (ℤ × ℤ)
range_from end rest (err e) = err e
range_from end [] (ok start) = ok (start, end)
range_from end (from ∷ []) (ok start) = ok (start, end)
range_from end (from ∷ to ∷ _) (ok start) = range_end start (offset (codes "end") from to)

-- getPartialHASHRange, from the range of the whole file. The error of the second offset names the
-- first argument, as the source does.
unfoldable pub get_partial_hash_range : List Bytes → ℤ → ℤ → Result (ℤ × ℤ)
get_partial_hash_range (file ∷ from ∷ rest) start end =
    range_from end (from ∷ rest) (offset (codes "start") from from)
get_partial_hash_range _ start end = ok (start, end)

module _ {W : Type 0} (env : Env W) where
  abbrev pub hash_read : HashAlgo → Bytes × Option Error → Result Bytes
  hash_read algo (text, none) = ok (env.digest algo text)
  hash_read algo (text, some e) =
      if not (is_error e eof)
      then err (file_access_error (codes "couldn't read file") e)
      else ok (env.digest algo text)

  abbrev pub hash_from : HashAlgo → ℤ → ℤ → ℕ → Option Error → M W (Result Bytes)
  hash_from algo start end handle (some e) = do
    d ← get_driver env
    call (d.close_file handle)
    pure (err (file_access_error (codes "couldn't seek file") e))
  hash_from algo start end handle none = do
    d ← get_driver env
    r ← call (d.read_file handle)
    call (d.close_file handle)
    pure (hash_read algo (copy_n (minus end start) r))

  abbrev pub hash_seek : Bool → ℤ → ℕ → M W (Option Error)
  hash_seek false start handle = pure none
  hash_seek true start handle = do d ← get_driver env; call (d.seek handle start)

  abbrev hash_opened : HashAlgo → ℤ → ℤ → Result ℕ → M W (Result Bytes)
  hash_opened algo start end (err e) = pure (err e)
  hash_opened algo start end (ok handle) = do
    e ← hash_seek (is_positive start) start handle
    hash_from algo start end handle e

  abbrev hash_known : Bool → Bytes → HashAlgo → ℤ → ℤ → M W (Result Bytes)
  hash_known false path algo start end = pure (err (sentinel unknown_hash))
  hash_known true path algo start end = do
    r ← get_file_handle env path read_only start
    hash_opened algo start end r

  -- computeHashForFile
  unfoldable pub compute_hash_for_file : Bytes → HashAlgo → ℤ → ℤ → M W (Result Bytes)
  compute_hash_for_file path algo start end = hash_known (is_known algo) path algo start end

  abbrev hash_reply : Bool → HashAlgo → Bytes → ℤ → ℤ → Result Bytes → M W (Option Error)
  hash_reply custom algo file start end (err e) = do
    reply status_action_not_taken (file ++ codes ": " ++ error_string e)
    pure none
  hash_reply true algo file start end (ok text) = do
    reply status_file_ok (codes "Computing " ++ get_hash_name algo ++ codes " digest\r\n" ++ text)
    pure none
  hash_reply false algo file start end (ok text) = do
    reply status_file_status (
        codes "Computing "
        ++ get_hash_name algo
        ++ codes " digest\r\n"
        ++ get_hash_name algo
        ++ codes " "
        ++ format_int start
        ++ codes "-"
        ++ format_int end
        ++ codes " "
        ++ text
        ++ codes " "
        ++ file)
    pure none

  abbrev pub run_hasher : Bool → ClientDriver W → Bytes → HashAlgo → ℤ → ℤ → M W (Result Bytes)
  run_hasher true d path algo start end = call (d.compute_hash path algo start end)
  run_hasher false d path algo start end = compute_hash_for_file path algo start end

  abbrev pub hash_range : Bool → HashAlgo → Bytes → Result (ℤ × ℤ) → M W (Option Error)
  hash_range custom algo file (err e) = do
    reply status_syntax_error_parameters (error_string e)
    pure none
  hash_range custom algo file (ok (start, end)) = do
    cwd ← gets (λ c. c.path)
    d ← get_driver env
    r ← run_hasher d.has_hasher d (abs_path cwd file) algo start end
    hash_reply custom algo file start end r

  abbrev pub whole_or_part : Bool → List Bytes → ℤ → Result (ℤ × ℤ)
  whole_or_part true args size = get_partial_hash_range args (pos 0) size
  whole_or_part false args size = ok (pos 0, size)

  abbrev pub hash_stat :
      Bool → HashAlgo → Bytes → Bytes → List Bytes → Result FileInfo → M W (Option Error)
  hash_stat custom algo param file args (err e) = do
    reply status_action_not_taken (param ++ codes ": " ++ error_string e)
    pure none
  hash_stat custom algo param file args (ok info) = elim info.is_regular [
    | false ↦ do
      reply status_action_not_taken_no_file (param ++ codes " is not a regular file")
      pure none
    | true ↦ hash_range custom algo file (whole_or_part custom args info.size)
  ]

  -- The driver is asked about the name as the client wrote it.
  abbrev pub hash_params : Bool → HashAlgo → Bytes → Option (List Bytes) → M W (Option Error)
  hash_params custom algo param (some (file ∷ rest)) = do
    d ← get_driver env
    r ← call (d.stat file)
    hash_stat custom algo param file (file ∷ rest) r
  hash_params custom algo param _ = do
    reply status_syntax_error_parameters (codes "invalid HASH parameters: " ++ param)
    pure none

  abbrev pub generic_hash_at : Bool → Bytes → HashAlgo → Bool → M W (Option Error)
  generic_hash_at false param algo custom = do
    reply status_command_not_implemented (codes "File hash support is disabled")
    pure none
  generic_hash_at true param algo custom =
      hash_params custom algo param (unquote_space_separated_params param)

  unfoldable pub handle_generic_hash : Bytes → HashAlgo → Bool → M W (Option Error)
  handle_generic_hash param algo custom = generic_hash_at env.settings.enable_hash param algo custom

  unfoldable pub handle_hash : Bytes → M W (Option Error)
  handle_hash param = do
    algo ← gets (λ c. c.selected_hash_algo)
    handle_generic_hash param algo false
