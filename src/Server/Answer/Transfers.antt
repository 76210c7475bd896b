-- ===== src/Server/Answer/Transfers.antt =====
-- STOR, APPE and RETR, which are answered once if no ABOR comes between.
use ftpserverlib.Prelude.{
  ℕ, ◌+◌, Bool, true, false, ◌&&◌, ◌++◌, Option, none, some, ◌≡◌, ◌≢◌, refl, ◌∙◌, ap, arith, inl,
  inr, Bool-cases,
}
use ftpserverlib.Prelude.Int.{ℤ, pos, is_zero}
use ftpserverlib.Text.{Bytes, codes}
use ftpserverlib.Paths.{abs_path}
use ftpserverlib.Errors.{Error, get_error_code}
use ftpserverlib.Session.{Env, Session, Outcome-cases, done, panic, Result, ok, err, Flags}
use ftpserverlib.Transfer.{transfer_open, transfer_close, close_transfer}
use ftpserverlib.Transfer.Replies.{finals}
use ftpserverlib.Files.{
  do_file_transfer, transfer_on, transfer_error_of, seeked, with_file, transfer_at, transfer_file,
  get_file_handle, transfer_flags, handle_stor, handle_appe, handle_retr,
}
use ftpserverlib.Server.Answer.{AnswersReady}

module _ {W : Type 0} (env : Env W) where
  -- Nothing is written, and the client is left.
  do_file_transfer-quiet :
      (write : Bool) (conn handle n : ℕ) (s : Session W)
      → s.client.driver ≡ some n
      → ((do_file_transfer env write conn handle s).1.client ≡ s.client)
        × ((do_file_transfer env write conn handle s).1.log ≡ s.log)
        × ((text : Bytes) → (do_file_transfer env write conn handle s).0 ≢ panic text)
  unfolding do_file_transfer
  do_file_transfer-quiet write conn handle n s d =
      (ground arith, ground arith, λ text. ground arith)

  pub transfer_open-once :
      (info : Bytes) (s : Session W)
      → s.client.is_transfer_aborted ≡ false
      → ((conn : ℕ)
          → (transfer_open env info s).0 ≡ done (ok conn)
          → ((transfer_open env info s).1.client.driver ≡ s.client.driver)
            × ((transfer_open env info s).1.client.is_transfer_aborted ≡ false)
            × (finals (transfer_open env info s).1.log ≡ finals s.log))
        × ((e : Error)
            → (transfer_open env info s).0 ≡ done (err e)
            → ((transfer_open env info s).1.client.driver ≡ s.client.driver)
              × ((transfer_open env info s).1.client.is_transfer_aborted ≡ false)
              × (finals (transfer_open env info s).1.log ≡ finals s.log + 1))
        × ((text : Bytes) → (transfer_open env info s).0 ≢ panic text)
  unfolding transfer_open
  transfer_open-once info s a = (λ conn h. ground arith, λ e h. ground arith, λ text. ground arith)

  pub transfer_close-once :
      (e : Option Error) (s : Session W)
      → s.client.is_transfer_aborted ≡ false
      → ((transfer_close env e s).0 ≡ done tt)
        × (finals (transfer_close env e s).1.log ≡ finals s.log + 1)
  unfolding transfer_close close_transfer get_error_code
  transfer_close-once e s a = ground arith

  -- after the transfer connection was opened, or was refused with an answer
  transfer_on-once :
      (write : Bool) (handle n : ℕ) (r : Result ℕ) (s : Session W)
      → s.client.driver ≡ some n
      → s.client.is_transfer_aborted ≡ false
      → ((transfer_on env write handle r s).0 ≡ done tt)
        × ((e : Error) → r ≡ err e → (transfer_on env write handle r s).1.log ≡ s.log)
        × ((conn : ℕ)
            → r ≡ ok conn
            → finals (transfer_on env write handle r s).1.log ≡ finals s.log + 1)
  unfolding transfer_on
  transfer_on-once write handle n (err e) s d a = (ground arith, λ e' h. ground arith, λ conn h. cc)
  transfer_on-once write handle n (ok conn) s d a =
      let (same, quiet, ends) = do_file_transfer-quiet write conn handle n s d in
      let (r, s1) = do_file_transfer env write conn handle s in
      elim (Outcome-cases r) [
        | inr (text, is_panic) ↦ absurd (ends text is_panic)
        | inl (e, is_done) ↦
            let (close_error, w) = (env.main.driver n).close_file handle s1.world in
            let closed =
              transfer_close-once (transfer_error_of env write e close_error)
                (record s1 { world = w }) (ap (λ c. c.is_transfer_aborted) same ∙ a) in
            (ground arith, λ e' h. cc, λ conn' h. ground arith)
      ]

  seeked-once :
      (write : Bool) (info : Bytes) (handle n : ℕ) (e : Option Error) (s : Session W)
      → s.client.driver ≡ some n
      → s.client.is_transfer_aborted ≡ false
      → ((seeked env write info handle e s).0 ≡ done tt)
        × (finals (seeked env write info handle e s).1.log ≡ finals s.log + 1)
  unfolding seeked get_error_code
  seeked-once write info handle n (some e) s d a = ground arith
  seeked-once write info handle n none s d a =
      let (opens, refuses, ends) = transfer_open-once info s a in
      let (r, s1) = transfer_open env info s in
      elim (Outcome-cases r) [
        | inr (text, is_panic) ↦ absurd (ends text is_panic)
        | inl (ok conn, is_done) ↦
            let (same, still, quiet) = opens conn is_done in
            let (returns, refused, answered) =
              transfer_on-once write handle n (ok conn) s1 (same ∙ d) still in
            let one = answered conn refl in ground arith
        | inl (err e, is_done) ↦
            let (same, still, answered) = refuses e is_done in
            let (returns, quiet, others) =
              transfer_on-once write handle n (err e) s1 (same ∙ d) still in
            let none_more = quiet e refl in ground arith
      ]

  with_file-once :
      (write : Bool) (info : Bytes) (n : ℕ) (r : Result ℕ) (s : Session W)
      → s.client.driver ≡ some n
      → s.client.is_transfer_aborted ≡ false
      → ((with_file env write info r s).0 ≡ done tt)
        × (finals (with_file env write info r s).1.log ≡ finals s.log + 1)
  unfolding with_file get_error_code
  with_file-once write info n (err e) s d a = ground arith
  with_file-once write info n (ok handle) s d a = elim (Bool-cases (is_zero s.client.ctx_rest)) [
    | inl zero ↦ let rest = seeked-once write info handle n none s d a in ground arith
    | inr nonzero ↦
        let (e, w) = (env.main.driver n).seek handle s.client.ctx_rest s.world in
        let rest =
          seeked-once write info handle n e
            (record s { world = w; client = record (s.client) { ctx_rest = pos 0 } }) d a in
        ground arith
  ]

  get_file_handle-quiet :
      (name : Bytes) (flags : Flags) (offset : ℤ) (n : ℕ) (s : Session W)
      → s.client.driver ≡ some n
      → ((get_file_handle env name flags offset s).1.client ≡ s.client)
        × ((get_file_handle env name flags offset s).1.log ≡ s.log)
        × ((text : Bytes) → (get_file_handle env name flags offset s).0 ≢ panic text)
  unfolding get_file_handle
  get_file_handle-quiet name flags offset n s d = (ground arith, ground arith, λ text. ground arith)

  transfer_at-once :
      (write append_file : Bool) (path info : Bytes) (n : ℕ) (s : Session W)
      → s.client.driver ≡ some n
      → s.client.is_transfer_aborted ≡ false
      → ((transfer_at env write append_file path info s).0 ≡ done tt)
        × (finals (transfer_at env write append_file path info s).1.log ≡ finals s.log + 1)
  transfer_at-once write append_file path info n s d a =
      let rest = s.client.ctx_rest in
      let flags = transfer_flags write append_file rest in
      let (same, quiet, ends) = get_file_handle-quiet path flags rest n s d in
      let (r, s1) = get_file_handle env path flags rest s in
      elim (Outcome-cases r) [
        | inr (text, is_panic) ↦ absurd (ends text is_panic)
        | inl (h, is_done) ↦
            let later =
              with_file-once write info n h s1 (ap (λ c. c.driver) same ∙ d)
                (ap (λ c. c.is_transfer_aborted) same ∙ a) in
            ground arith
      ]

  transfer_file-once :
      (write append_file : Bool) (param info : Bytes) (n : ℕ) (s : Session W)
      → s.client.driver ≡ some n
      → s.client.is_transfer_aborted ≡ false
      → ((transfer_file env write append_file param info s).0 ≡ done tt)
        × (finals (transfer_file env write append_file param info s).1.log ≡ finals s.log + 1)
  unfolding transfer_file
  transfer_file-once write append_file param info n s d a =
      let path = abs_path s.client.path param in
      elim (Bool-cases (write && append_file)) [
        | inr keeps ↦ let one = transfer_at-once write append_file path info n s d a in ground arith
        | inl forgets ↦
            let s1 = record s { client = record (s.client) { ctx_rest = pos 0 } } in
            let one = transfer_at-once write append_file path info n s1 d a in ground arith
      ]

  pub handle_stor-AnswersReady : (param : Bytes) → AnswersReady (handle_stor env param)
  unfolding handle_stor
  handle_stor-AnswersReady param = record {
    at = λ s n d a.
        let one = transfer_file-once true false param (codes "STOR " ++ param) n s d a in
        ground arith;
  }

  pub handle_appe-AnswersReady : (param : Bytes) → AnswersReady (handle_appe env param)
  unfolding handle_appe
  handle_appe-AnswersReady param = record {
    at = λ s n d a.
        let one = transfer_file-once true true param (codes "APPE " ++ param) n s d a in
        ground arith;
  }

  pub handle_retr-AnswersReady : (param : Bytes) → AnswersReady (handle_retr env param)
  unfolding handle_retr
  handle_retr-AnswersReady param = record {
    at = λ s n d a.
        let one = transfer_file-once false false param (codes "RETR " ++ param) n s d a in
        ground arith;
  }
