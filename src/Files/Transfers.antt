-- ===== src/Files/Transfers.antt =====
-- STOR, APPE and RETR: transferFile, doFileTransfer and getFileHandle of handle_files.go.
use ftpserverlib.Codes.{status_action_not_taken}
use ftpserverlib.Prelude.{
  ℕ, Bool, true, false, not, ◌&&◌, ◌||◌, List, [], ◌++◌, Option, none, some, ◌==◌, if◌then◌else◌,
}
use ftpserverlib.Prelude.Int.{ℤ, pos, is_zero}
use ftpserverlib.Text.{Bytes, codes}
use ftpserverlib.Errors.{
  Error, eof, driver_error, network_error, error_string, is_error, get_error_code,
}
use ftpserverlib.Session.{
  Result, ok, err, Call, Flags, ConvertMode, to_crlf, to_lf, is_ascii, Env, ClientDriver, M, pure,
  gets, call, modify, reply, get_driver, ◌>>=◌, ◌>>◌,
}
use ftpserverlib.Transfer.{transfer_open, transfer_close}
use ftpserverlib.Dirs.{resolve}
use ftpserverlib.Files.Copy.{copy_through}

abbrev pub read_only : Flags
read_only = record { wronly = false; create = false; append = false; trunc = false }

-- The flags of transferFile; `rest` is the restart point.
unfoldable pub transfer_flags : Bool → Bool → ℤ → Flags
transfer_flags true true rest = record {
  wronly = true;
  create = true;
  append = true;
  trunc = false;
}
transfer_flags true false rest = record {
  wronly = true;
  create = true;
  append = false;
  trunc = is_zero rest;
}
transfer_flags false append_file rest = read_only

module _ {W : Type 0} (env : Env W) where
  abbrev wrap_driver_error : Bytes → Result ℕ → Result ℕ
  wrap_driver_error text (ok handle) = ok handle
  wrap_driver_error text (err e) = err (driver_error text e)

  abbrev file_handle_from : Bool → ClientDriver W → Bytes → Flags → ℤ → M W (Result ℕ)
  file_handle_from true d name flags offset = do
    r ← call (d.get_handle name flags offset)
    pure (wrap_driver_error (codes "calling GetHandle") r)
  file_handle_from false d name flags offset = do
    r ← call (d.open_file name flags)
    pure (wrap_driver_error (codes "calling OpenFile") r)

  unfoldable pub get_file_handle : Bytes → Flags → ℤ → M W (Result ℕ)
  get_file_handle name flags offset = do
    d ← get_driver env
    file_handle_from d.has_file_transfer d name flags offset

  abbrev pub reset_rest : M W (Unit {0})
  reset_rest = modify (λ c. record c { ctx_rest = pos 0 })

  -- isCommandAborted in front of an error reply
  abbrev pub unless_aborted : Bool → ℕ → Bytes → M W (Unit {0})
  unless_aborted true code text = pure tt
  unless_aborted false code text = reply code text

  abbrev notify : Bool → ClientDriver W → ℕ → Error → M W (Unit {0})
  notify true d handle e = call (d.transfer_error handle e)
  notify false d handle e = pure tt

  -- the writer's empty write after a copy of nothing
  abbrev pub touch : Bool → Bool → ClientDriver W → ℕ → ℕ → M W (Option Error)
  touch false write d conn handle = pure none
  touch true true d conn handle = do r ← call (d.write_file handle []); pure r.1
  touch true false d conn handle = do r ← call (env.net.write conn []); pure r.1

  abbrev copy_error : Bool → Option Error → Option Error
  copy_error write none = none
  copy_error write (some e) = if not (is_error e eof) || write then some e else none

  abbrev pub after_copy : Bool → ClientDriver W → ℕ → ℕ → ℕ → Option Error → M W (Option Error)
  after_copy write d conn handle written (some e) = pure (some e)
  after_copy write d conn handle written none = touch (written == 0) write d conn handle

  abbrev copied : ClientDriver W → ℕ → Option Error → M W (Option Error)
  copied d handle none = pure none
  copied d handle (some e) = do
    notify (d.has_transfer_error handle) d handle e
    pure (some (network_error (codes "error transferring data") e))

  abbrev pub conversion_mode : Bool → ConvertMode
  conversion_mode true = if not env.windows then to_lf else to_crlf
  conversion_mode false = to_crlf

  -- the source of a copy and its sink: into the file if the flag is set
  abbrev pub reader : Bool → ClientDriver W → ℕ → ℕ → Call W (List Bytes × Option Error)
  reader true d conn handle = env.net.read_conn conn
  reader false d conn handle = d.read_file handle

  abbrev pub writer : Bool → ClientDriver W → ℕ → ℕ → Bytes → Call W (ℕ × Option Error)
  writer true d conn handle = d.write_file handle
  writer false d conn handle = env.net.write conn

  unfoldable pub do_file_transfer : Bool → ℕ → ℕ → M W (Option Error)
  do_file_transfer write conn handle = do
    d ← get_driver env
    converted ← gets (λ c. is_ascii c.current_transfer_type)
    r ← call (
        copy_through (if converted then some (conversion_mode write) else none)
          (reader write d conn handle) (writer write d conn handle))
    e ← after_copy write d conn handle r.0 (copy_error write r.1)
    copied d handle e

  -- The close error of a file that was written counts if nothing failed before.
  abbrev pub transfer_error_of : Bool → Option Error → Option Error → Option Error
  transfer_error_of write (some e) close_error = some e
  transfer_error_of true none close_error = close_error
  transfer_error_of false none close_error = none

  unfoldable pub transfer_on : Bool → ℕ → Result ℕ → M W (Unit {0})
  transfer_on write handle (err e) = do
    d ← get_driver env
    notify (d.has_transfer_error handle) d handle e
    call (d.close_file handle)
    pure tt
  transfer_on write handle (ok conn) = do
    e ← do_file_transfer write conn handle
    d ← get_driver env
    close_error ← call (d.close_file handle)
    transfer_close env (transfer_error_of write e close_error)

  unfoldable pub seeked : Bool → Bytes → ℕ → Option Error → M W (Unit {0})
  seeked write info handle none = do r ← transfer_open env info; transfer_on write handle r
  seeked write info handle (some e) = do
    aborted ← gets (λ c. c.is_transfer_aborted)
    unless_aborted aborted (get_error_code e status_action_not_taken)
        (codes "Could not seek file: " ++ error_string e)
    d ← get_driver env
    call (d.close_file handle)
    pure tt

  abbrev seek_to : Bool → ℤ → ℕ → M W (Option Error)
  seek_to true rest handle = pure none
  seek_to false rest handle = do
    d ← get_driver env
    e ← call (d.seek handle rest)
    reset_rest
    pure e

  unfoldable pub with_file : Bool → Bytes → Result ℕ → M W (Unit {0})
  with_file write info (err e) = do
    aborted ← gets (λ c. c.is_transfer_aborted)
    unless_aborted aborted (get_error_code e status_action_not_taken)
        (codes "Could not access file: " ++ error_string e)
    reset_rest
  with_file write info (ok handle) = do
    rest ← gets (λ c. c.ctx_rest)
    e ← seek_to (is_zero rest) rest handle
    seeked write info handle e

  abbrev forget_rest : Bool → M W (Unit {0})
  forget_rest true = reset_rest
  forget_rest false = pure tt

  abbrev pub transfer_at : Bool → Bool → Bytes → Bytes → M W (Unit {0})
  transfer_at write append_file path info = do
    rest ← gets (λ c. c.ctx_rest)
    r ← get_file_handle path (transfer_flags write append_file rest) rest
    with_file write info r

  unfoldable pub transfer_file : Bool → Bool → Bytes → Bytes → M W (Unit {0})
  transfer_file write append_file param info = do
    path ← resolve param
    forget_rest (write && append_file)
    transfer_at write append_file path info

  unfoldable pub handle_stor : Bytes → M W (Option Error)
  handle_stor param = transfer_file true false param (codes "STOR " ++ param) >> pure none

  unfoldable pub handle_appe : Bytes → M W (Option Error)
  handle_appe param = transfer_file true true param (codes "APPE " ++ param) >> pure none

  unfoldable pub handle_retr : Bytes → M W (Option Error)
  handle_retr param = transfer_file false false param (codes "RETR " ++ param) >> pure none
