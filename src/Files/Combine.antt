-- ===== src/Files/Combine.antt =====
-- COMB: handleCOMB and combineFiles of handle_files.go.
use ftpserverlib.Codes.{
  status_action_not_taken, status_command_not_implemented, status_file_ok,
  status_syntax_error_parameters,
}
use ftpserverlib.Prelude.{ℕ, Bool, true, false, not, List, [], ◌∷◌, ◌++◌, Option, none, some, map}
use ftpserverlib.Prelude.Int.{pos}
use ftpserverlib.Text.{Bytes, codes}
use ftpserverlib.Text.Quote.{quote}
use ftpserverlib.Errors.{Error, not_exist, error_string, is_error, get_error_code}
use ftpserverlib.Paths.{abs_path}
use ftpserverlib.Session.{
  Result, ok, err, FileInfo, Flags, Env, M, pure, gets, call, reply, get_driver, ◌>>=◌, ◌>>◌,
}
use ftpserverlib.Files.Transfers.{get_file_handle, read_only}
use ftpserverlib.Files.Copy.{copy_through}
use ftpserverlib.Files.Params.{unquote_space_separated_params}

abbrev access_text : Bytes → Error → Bytes
access_text path e = codes "Could not access file " ++ quote path ++ codes ": " ++ error_string e

-- A new target is created, and one that is there is appended to.
unfoldable pub combine_flags : Bool → Flags
combine_flags new = record { wronly = true; create = new; append = not new; trunc = false }

module _ {W : Type 0} (env : Env W) where
  abbrev close_target : ℕ → M W (Unit {0})
  close_target file = do d ← get_driver env; call (d.close_file file); pure tt

  abbrev combine_close_reply : Bytes → Option Error → M W (Unit {0})
  combine_close_reply target_path none = reply status_file_ok (codes "COMB succeeded!")
  combine_close_reply target_path (some e) =
      reply status_action_not_taken (
        codes "Could not close combined file " ++ quote target_path ++ codes ": " ++ error_string e)

  abbrev finish_combine : Bytes → ℕ → M W (Unit {0})
  finish_combine target_path file = do
    d ← get_driver env
    e ← call (d.close_file file)
    combine_close_reply target_path e

  -- Each part is copied and removed; `next` goes on with the other parts.
  abbrev part_removed : ℕ → Bytes → M W (Unit {0}) → Option Error → M W (Unit {0})
  part_removed file partial next none = next
  part_removed file partial next (some e) = do
    close_target file
    reply status_action_not_taken (
        codes "Could not delete file "
        ++ quote partial
        ++ codes " after combine: "
        ++ error_string e)

  abbrev part_copied : ℕ → ℕ → Bytes → M W (Unit {0}) → Option Error → M W (Unit {0})
  part_copied file src partial next (some e) = do
    close_target src
    close_target file
    reply (get_error_code e status_action_not_taken)
        (codes "Could not combine file " ++ quote partial ++ codes ": " ++ error_string e)
  part_copied file src partial next none = do
    close_target src
    d ← get_driver env
    e ← call (d.remove partial)
    part_removed file partial next e

  abbrev part_opened : ℕ → Bytes → M W (Unit {0}) → Result ℕ → M W (Unit {0})
  part_opened file partial next (err e) = do
    close_target file
    reply (get_error_code e status_action_not_taken) (access_text partial e)
  part_opened file partial next (ok src) = do
    d ← get_driver env
    (written, e) ← call (copy_through none (d.read_file src) (d.write_file file))
    part_copied file src partial next e

  unfoldable pub combine_parts : Bytes → ℕ → List Bytes → M W (Unit {0})
  combine_parts target_path file [] = finish_combine target_path file
  combine_parts target_path file (partial ∷ rest) = do
    r ← get_file_handle env partial read_only (pos 0)
    part_opened file partial (combine_parts target_path file rest) r

  abbrev target_opened : Bytes → List Bytes → Result ℕ → M W (Unit {0})
  target_opened target_path source_paths (err e) =
      reply (get_error_code e status_action_not_taken) (access_text target_path e)
  target_opened target_path source_paths (ok file) = combine_parts target_path file source_paths

  unfoldable pub combine_files : Bytes → Flags → List Bytes → M W (Unit {0})
  combine_files target_path flags source_paths = do
    r ← get_file_handle env target_path flags (pos 0)
    target_opened target_path source_paths r

  abbrev pub target_known : Bytes → List Bytes → Result FileInfo → M W (Option Error)
  target_known target_path source_paths (ok _) =
      combine_files target_path (combine_flags false) source_paths >> pure none
  target_known target_path source_paths (err e) = elim (is_error e not_exist) [
    | true ↦ combine_files target_path (combine_flags true) source_paths >> pure none
    | false ↦ do reply status_action_not_taken (access_text target_path e); pure none
  ]

  abbrev pub combine_params : Bytes → Option (List Bytes) → M W (Option Error)
  combine_params param (some (target ∷ source ∷ sources)) = do
    cwd ← gets (λ c. c.path)
    d ← get_driver env
    r ← call (d.stat (abs_path cwd target))
    target_known (abs_path cwd target) (map (abs_path cwd) (source ∷ sources)) r
  combine_params param _ = do
    reply status_syntax_error_parameters (codes "invalid COMB parameters: " ++ param)
    pure none

  abbrev handle_comb_at : Bool → Bytes → M W (Option Error)
  handle_comb_at false param = do
    reply status_command_not_implemented (codes "COMB support is disabled")
    pure none
  handle_comb_at true param = combine_params param (unquote_space_separated_params param)

  unfoldable pub handle_comb : Bytes → M W (Option Error)
  handle_comb param = handle_comb_at env.settings.enable_comb param
