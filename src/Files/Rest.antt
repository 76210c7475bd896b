-- ===== src/Files/Rest.antt =====
-- What a transfer command leaves behind: the restart point is used once, and every path ends.
use ftpserverlib.Prelude.{
  Bool-cases, ℕ, Bool, true, false, ◌&&◌, Option, none, some, ◌≡◌, ◌≢◌, ◌∙◌, ap, refl, inl, inr,
  arith,
}
use ftpserverlib.Prelude.Int.{ℤ, pos, is_zero}
use ftpserverlib.Text.{Bytes}
use ftpserverlib.Paths.{abs_path}
use ftpserverlib.Errors.{Error, get_error_code}
use ftpserverlib.Session.{Flags, Env, Session, Outcome-cases, done, panic, Result, ok, err}
use ftpserverlib.Transfer.{transfer_open, transfer_close, close_transfer}
use ftpserverlib.Files.Transfers.{
  transfer_file, transfer_on, seeked, with_file, do_file_transfer, transfer_flags, get_file_handle,
}

-- The session in which APPE has dropped the restart point.
forgotten : {W : Type 0} → Bool → Session W → Session W
forgotten true s = record s { client = record (s.client) { ctx_rest = pos 0 } }
forgotten false s = s

forgotten-driver :
    {W : Type 0} (b : Bool) (s : Session W) → (forgotten b s).client.driver ≡ s.client.driver
unfolding forgotten
forgotten-driver true s = refl
forgotten-driver false s = refl

module _ {W : Type 0} (env : Env W) where
  transfer_open-Ends :
      (info : Bytes) (s : Session W)
      → ((text : Bytes) → (transfer_open env info s).0 ≢ panic text)
        × ((transfer_open env info s).1.client.driver ≡ s.client.driver)
        × ((transfer_open env info s).1.client.ctx_rest ≡ s.client.ctx_rest)
  unfolding transfer_open
  transfer_open-Ends info s = (λ text. ground arith, ground arith, ground arith)

  do_file_transfer-Ends :
      (write : Bool) (conn handle n : ℕ) (s : Session W)
      → s.client.driver ≡ some n
      → ((text : Bytes) → (do_file_transfer env write conn handle s).0 ≢ panic text)
        × ((do_file_transfer env write conn handle s).1.client.driver ≡ s.client.driver)
        × ((do_file_transfer env write conn handle s).1.client.ctx_rest ≡ s.client.ctx_rest)
  unfolding do_file_transfer
  do_file_transfer-Ends write conn handle n s d = (λ text. ground arith, ground arith, ground arith)

  transfer_on-Ends :
      (write : Bool) (handle n : ℕ) (r : Result ℕ) (s : Session W)
      → s.client.driver ≡ some n
      → ((transfer_on env write handle r s).0 ≡ done tt)
        × ((transfer_on env write handle r s).1.client.ctx_rest ≡ s.client.ctx_rest)
  unfolding transfer_on transfer_close close_transfer get_error_code
  transfer_on-Ends write handle n (err e) s d = ground arith
  transfer_on-Ends write handle n (ok conn) s d =
      let (done_or, same_driver, same_rest) = do_file_transfer-Ends write conn handle n s d in
      elim (Outcome-cases (do_file_transfer env write conn handle s).0) [
        | inl (a, is_a) ↦ ground arith
        | inr (text, is_panic) ↦ absurd (done_or text is_panic)
      ]

  seeked-Ends :
      (write : Bool) (info : Bytes) (handle n : ℕ) (e : Option Error) (s : Session W)
      → s.client.driver ≡ some n
      → ((seeked env write info handle e s).0 ≡ done tt)
        × ((seeked env write info handle e s).1.client.ctx_rest ≡ s.client.ctx_rest)
  unfolding seeked
  seeked-Ends write info handle n none s d =
      let (done_or, same_driver, same_rest) = transfer_open-Ends info s in
      let (r, s') = transfer_open env info s in
      elim (Outcome-cases r) [
        | inl (a, is_a) ↦
            let rest = transfer_on-Ends write handle n a s' (same_driver ∙ d) in ground arith
        | inr (text, is_panic) ↦ absurd (done_or text is_panic)
      ]
  seeked-Ends write info handle n (some e) s d = ground arith

  with_file-Ends :
      (write : Bool) (info : Bytes) (n : ℕ) (r : Result ℕ) (s : Session W)
      → s.client.driver ≡ some n
      → ((with_file env write info r s).0 ≡ done tt)
        × ((with_file env write info r s).1.client.ctx_rest ≡ pos 0)
  unfolding with_file
  with_file-Ends write info n (err e) s d = ground arith
  with_file-Ends write info n (ok handle) s d = elim (Bool-cases (is_zero s.client.ctx_rest)) [
    | inl zero ↦ let rest = seeked-Ends write info handle n none s d in ground arith
    | inr nonzero ↦
        let (e, w) = (env.main.driver n).seek handle s.client.ctx_rest s.world in
        let rest =
          seeked-Ends write info handle n e
            (record s { world = w; client = record (s.client) { ctx_rest = pos 0 } }) d in
        ground arith
  ]

  get_file_handle-Ends :
      (name : Bytes) (flags : Flags) (offset : ℤ) (n : ℕ) (s : Session W)
      → s.client.driver ≡ some n
      → ((text : Bytes) → (get_file_handle env name flags offset s).0 ≢ panic text)
        × ((get_file_handle env name flags offset s).1.client ≡ s.client)
  unfolding get_file_handle
  get_file_handle-Ends name flags offset n s d = (λ text. ground arith, ground arith)

  -- With a driver, STOR, APPE and RETR end without a panic on every path, and leave no restart
  -- point: a later transfer starts at the beginning unless REST comes again.
  pub transfer_file-ctx_rest :
      (write append_file : Bool) (param info : Bytes) (n : ℕ) (s : Session W)
      → s.client.driver ≡ some n
      → ((transfer_file env write append_file param info s).0 ≡ done tt)
        × ((transfer_file env write append_file param info s).1.client.ctx_rest ≡ pos 0)
  unfolding transfer_file forgotten
  transfer_file-ctx_rest write append_file param info n s d =
      let path = abs_path s.client.path param in
      let kept = forgotten (write && append_file) s in
      let flags = transfer_flags write append_file kept.client.ctx_rest in
      let (done_or, same) =
        get_file_handle-Ends path flags kept.client.ctx_rest n kept
          (forgotten-driver (write && append_file) s ∙ d) in
      let (r, s') = get_file_handle env path flags kept.client.ctx_rest kept in
      elim (Outcome-cases r) [
        | inl (a, is_a) ↦
            let rest =
              with_file-Ends write info n a s'
                (ap (λ c. c.driver) same ∙ forgotten-driver (write && append_file) s ∙ d) in
            ground arith
        | inr (text, is_panic) ↦ absurd (done_or text is_panic)
      ]
