-- ===== src/Files/Resumed.antt =====
-- RETR behind REST.
use ftpserverlib.Prelude.{
  ℕ, ◌<◌, false, List, ◌∷◌, ◌++◌, none, some, ◌≡◌, sym, ap, ◌∙◌, arith, inl, inr, if◌then◌else◌,
  drop,
}
use ftpserverlib.Prelude.Int.{pos, is_zero}
use ftpserverlib.Text.{Bytes, codes}
use ftpserverlib.Paths.{abs_path}
use ftpserverlib.Session.{Env, Session, is_ascii, reply_codes, done, ok, to_crlf, Outcome-cases}
use ftpserverlib.Transfer.{transfer_open}
use ftpserverlib.Files.Copy.{concat}
use ftpserverlib.Files.Delivery.{expected}
use ftpserverlib.Files.Complete.{IsSink, transfer_on-delivers}
use ftpserverlib.Files.Opening.{opening, get_file_handle-opens}
use ftpserverlib.Files.Transfers.{
  handle_retr, transfer_file, transfer_on, seeked, with_file, transfer_flags,
}

module _ {W : Type 0} (env : Env W) (contents : W → Bytes) where
  transfer_open-kept :
      (info : Bytes) (conn n : ℕ) (s s' : Session W)
      → s.client.driver ≡ some n
      → transfer_open env info s ≡ (done (ok conn), s')
      → (s'.client.driver ≡ some n)
        × (s'.client.current_transfer_type ≡ s.client.current_transfer_type)
        × (reply_codes s'.log ≡ 150 ∷ reply_codes s.log)
  unfolding transfer_open
  transfer_open-kept info conn n s s' d opens = (ground arith, ground arith, ground arith)

  with_file-transfer_on :
      (info : Bytes) (conn handle n : ℕ) (s s2 : Session W) (w : W)
      → s.client.driver ≡ some n
      → is_zero s.client.ctx_rest ≡ false
      → (env.main.driver n).seek handle s.client.ctx_rest s.world ≡ (none, w)
      → transfer_open env info
          (record s { world = w; client = record (s.client) { ctx_rest = pos 0 } })
        ≡ (done (ok conn), s2)
      → with_file env false info (ok handle) s ≡ transfer_on env false handle (ok conn) s2
  unfolding with_file seeked
  with_file-transfer_on info conn handle n s s2 w d moves seeks connects = ground arith

  transfer_file-transfer_on :
      (param info : Bytes) (conn handle n : ℕ) (s s2 : Session W) (w w1 : W)
      → s.client.driver ≡ some n
      → is_zero s.client.ctx_rest ≡ false
      → opening (env.main.driver n) (abs_path s.client.path param) s.client.ctx_rest s.world
        ≡ (ok handle, w)
      → (env.main.driver n).seek handle s.client.ctx_rest w ≡ (none, w1)
      → transfer_open env info
          (record s { world = w1; client = record (s.client) { ctx_rest = pos 0 } })
        ≡ (done (ok conn), s2)
      → transfer_file env false false param info s ≡ transfer_on env false handle (ok conn) s2
  unfolding transfer_file transfer_flags
  transfer_file-transfer_on param info conn handle n s s2 w w1 d moves opens seeks connects =
      let path = abs_path s.client.path param in
      let is = get_file_handle-opens env path s.client.ctx_rest handle n s w d opens in
      let later =
        with_file-transfer_on info conn handle n (record s { world = w }) s2 w1 d moves seeks
          connects in
      rw (is) later

  -- the session after a transfer, whose answer is already given
  handle_retr-session :
      (param : Bytes) (s : Session W)
      → (handle_retr env param s).1
        ≡ (transfer_file env false false param (codes "RETR " ++ param) s).1
  unfolding handle_retr
  handle_retr-session param s =
      elim (Outcome-cases (transfer_file env false false param (codes "RETR " ++ param) s).0) [
        | inl (x, ends) ↦ ground arith
        | inr (text, panics) ↦ ground arith
      ]

  -- A RETR behind REST k that is answered by 150 and 226 has sent the client just the bytes of the
  -- file from its byte k on, with their line ends converted in ASCII mode. The file, which the driver
  -- opens and sets to k without an error, then reads as these bytes; the data connection, which is
  -- opened without an error, keeps to the contract of io.Writer, and nothing but the copy writes to it.
  pub handle_retr-resumes :
      (param text : Bytes) (k conn handle n : ℕ) (chunks : List Bytes) (s s2 : Session W)
      (w w1 w2 : W)
      → s.client.driver ≡ some n
      → s.client.ctx_rest ≡ pos k
      → 0 < k
      → opening (env.main.driver n) (abs_path s.client.path param) (pos k) s.world ≡ (ok handle, w)
      → (env.main.driver n).seek handle (pos k) w ≡ (none, w1)
      → transfer_open env
          (codes "RETR " ++ param)
          (record s { world = w1; client = record (s.client) { ctx_rest = pos 0 } })
        ≡ (done (ok conn), s2)
      → (env.main.driver n).read_file handle s2.world ≡ ((chunks, none), w2)
      → concat chunks ≡ drop k text
      → IsSink env contents false (env.main.driver n) conn handle
      → let s' = (handle_retr env param s).1 in
        let mode = if is_ascii s.client.current_transfer_type then some to_crlf else none in
        reply_codes s'.log ≡ 226 ∷ 150 ∷ reply_codes s.log
        → contents s'.world ≡ contents s2.world ++ expected mode (drop k text)
  handle_retr-resumes param text k conn handle n chunks s s2 w w1 w2 d rest positive opens seeks
        connects reads holds sink replied =
      let (d2, type, opened) =
        transfer_open-kept (codes "RETR " ++ param) conn n
          (record s { world = w1; client = record (s.client) { ctx_rest = pos 0 } }) s2 d
          connects in
      let path = abs_path s.client.path param in
      let moves : is_zero s.client.ctx_rest ≡ false = ground arith in
      let opens' : opening (env.main.driver n) path s.client.ctx_rest s.world ≡ (ok handle, w) =
        cc in
      let seeks' : (env.main.driver n).seek handle s.client.ctx_rest w ≡ (none, w1) = cc in
      let ran =
        transfer_file-transfer_on param (codes "RETR " ++ param) conn handle n s s2 w w1 d moves
          opens' seeks' connects in
      let same : (handle_retr env param s).1 ≡ (transfer_on env false handle (ok conn) s2).1 =
        handle_retr-session param s ∙ ap (λ x. x.1) ran in
      let code : reply_codes (transfer_on env false handle (ok conn) s2).1.log
          ≡ 226 ∷ reply_codes s2.log =
        ap (λ x. reply_codes x.log) (sym same) ∙ replied ∙ ap (◌∷◌ 226) (sym opened) in
      let (delivered, _) = transfer_on-delivers env contents false conn handle n s2 d2 sink code in
      let in_type =
        ap
          (λ t.
            contents s2.world
            ++ expected (if is_ascii t then some to_crlf else none)
                (concat ((env.main.driver n).read_file handle s2.world).0.0))
          type in
      let bytes : concat ((env.main.driver n).read_file handle s2.world).0.0 ≡ drop k text =
        ap (λ x. concat x.0.0) reads ∙ holds in
      ap (λ x. contents x.world) same
      ∙ delivered
      ∙ in_type
      ∙ ap
          (λ x.
            contents s2.world
            ++ expected (if is_ascii s.client.current_transfer_type then some to_crlf else none) x)
          bytes
