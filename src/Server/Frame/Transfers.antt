-- ===== src/Server/Frame/Transfers.antt =====
-- STOR, APPE and RETR.
use ftpserverlib.Prelude.{
  ℕ, Bool, true, false, ◌&&◌, ◌++◌, Option, none, some, arith, inl, inr, Bool-cases, Option-cases,
}
use ftpserverlib.Prelude.Int.{pos, is_zero}
use ftpserverlib.Text.{Bytes, codes}
use ftpserverlib.Errors.{Error}
use ftpserverlib.Paths.{abs_path}
use ftpserverlib.Session.{Env, Outcome-cases, Result, ok, err}
use ftpserverlib.Session.Leaves.{Same, Leaves}
use ftpserverlib.Transfer.{transfer_open, transfer_close, close_transfer}
use ftpserverlib.Files.{
  do_file_transfer, transfer_on, transfer_error_of, seeked, with_file, transfer_at, transfer_file,
  get_file_handle, transfer_flags, handle_stor, handle_appe, handle_retr,
}
use ftpserverlib.Server.Frame.Combine.{get_file_handle-Same}

module _ {W : Type 0} (env : Env W) where
  do_file_transfer-Same :
      (write : Bool) (conn handle : ℕ) → Leaves Same (do_file_transfer env write conn handle)
  unfolding do_file_transfer
  do_file_transfer-Same write conn handle = record { at = λ s. ground arith }

  pub transfer_open-Same : (info : Bytes) → Leaves Same (transfer_open env info)
  unfolding transfer_open
  transfer_open-Same info = record { at = λ s. ground arith }

  pub transfer_close-Same : (e : Option Error) → Leaves Same (transfer_close env e)
  unfolding transfer_close close_transfer
  transfer_close-Same e = record { at = λ s. ground arith }

  transfer_on-Same :
      (write : Bool) (handle : ℕ) (r : Result ℕ) → Leaves Same (transfer_on env write handle r)
  unfolding transfer_on
  transfer_on-Same write handle (err e) = record { at = λ s. ground arith }
  transfer_on-Same write handle (ok conn) = record {
    at = λ s.
        let copied = (do_file_transfer-Same write conn handle).at s in
        let (r, s1) = do_file_transfer env write conn handle s in
        elim (Outcome-cases r) [
          | inr (text, is_panic) ↦ ground arith
          | inl (e, is_done) ↦ elim (Option-cases s1.client.driver) [
            | inl no_driver ↦ ground arith
            | inr (n, is_driver) ↦
                let (close_error, w) = (env.main.driver n).close_file handle s1.world in
                let closed =
                  (transfer_close-Same (transfer_error_of env write e close_error)).at
                    (record s1 { world = w }) in
                ground arith
          ]
        ];
  }

  seeked-Same :
      (write : Bool) (info : Bytes) (handle : ℕ) (e : Option Error)
      → Leaves Same (seeked env write info handle e)
  unfolding seeked
  seeked-Same write info handle (some e) = record { at = λ s. ground arith }
  seeked-Same write info handle none = record {
    at = λ s.
        let opened = (transfer_open-Same info).at s in
        let (r, s1) = transfer_open env info s in
        elim (Outcome-cases r) [
          | inr (text, is_panic) ↦ ground arith
          | inl (a, is_done) ↦ let rest = (transfer_on-Same write handle a).at s1 in ground arith
        ];
  }

  with_file-Same :
      (write : Bool) (info : Bytes) (r : Result ℕ) → Leaves Same (with_file env write info r)
  unfolding with_file
  with_file-Same write info (err e) = record { at = λ s. ground arith }
  with_file-Same write info (ok handle) = record {
    at = λ s. elim (Bool-cases (is_zero s.client.ctx_rest)) [
      | inl zero ↦ let rest = (seeked-Same write info handle none).at s in ground arith
      | inr nonzero ↦ elim (Option-cases s.client.driver) [
        | inl no_driver ↦ ground arith
        | inr (n, is_driver) ↦
            let (e, w) = (env.main.driver n).seek handle s.client.ctx_rest s.world in
            let rest =
              (seeked-Same write info handle e).at
                (record s { world = w; client = record (s.client) { ctx_rest = pos 0 } }) in
            ground arith
      ]
    ];
  }

  transfer_at-Same :
      (write append_file : Bool) (path info : Bytes)
      → Leaves Same (transfer_at env write append_file path info)
  transfer_at-Same write append_file path info = record {
    at = λ s.
        let rest = s.client.ctx_rest in
        let flags = transfer_flags write append_file rest in
        let opened = (get_file_handle-Same env path flags rest).at s in
        let (r, s1) = get_file_handle env path flags rest s in
        elim (Outcome-cases r) [
          | inr (text, is_panic) ↦ ground arith
          | inl (a, is_done) ↦ let later = (with_file-Same write info a).at s1 in ground arith
        ];
  }

  transfer_file-Same :
      (write append_file : Bool) (param info : Bytes)
      → Leaves Same (transfer_file env write append_file param info)
  unfolding transfer_file
  transfer_file-Same write append_file param info = record {
    at = λ s.
        let path = abs_path s.client.path param in
        let transferred = transfer_at-Same write append_file path info in
        elim (Bool-cases (write && append_file)) [
          | inr keeps ↦ let done_so = transferred.at s in ground arith
          | inl forgets ↦
              let done_so =
                transferred.at (record s { client = record (s.client) { ctx_rest = pos 0 } }) in
              ground arith
        ];
  }

  pub handle_stor-Same : (param : Bytes) → Leaves Same (handle_stor env param)
  unfolding handle_stor
  handle_stor-Same param = record {
    at = λ s.
        let same = (transfer_file-Same true false param (codes "STOR " ++ param)).at s in
        ground arith;
  }

  pub handle_appe-Same : (param : Bytes) → Leaves Same (handle_appe env param)
  unfolding handle_appe
  handle_appe-Same param = record {
    at = λ s.
        let same = (transfer_file-Same true true param (codes "APPE " ++ param)).at s in
        ground arith;
  }

  pub handle_retr-Same : (param : Bytes) → Leaves Same (handle_retr env param)
  unfolding handle_retr
  handle_retr-Same param = record {
    at = λ s.
        let same = (transfer_file-Same false false param (codes "RETR " ++ param)).at s in
        ground arith;
  }
