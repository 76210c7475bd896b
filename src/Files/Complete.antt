-- ===== src/Files/Complete.antt =====
-- When doFileTransfer and TransferClose report success, everything has been delivered.
use ftpserverlib.Prelude.{
  ℕ, Bool, true, false, List, ◌∷◌, ◌++◌, Option, none, some, ◌≡◌, refl, sym, ap, ◌∙◌, inl, inr,
  arith, length, take, Bool-cases, Option-cases, append-nil, ◌==◌, ◌≢◌, [], if◌then◌else◌,
}
use ftpserverlib.Text.{Bytes}
use ftpserverlib.Errors.{Error, eof, is_error, get_error_code}
use ftpserverlib.Session.{
  Call, ClientDriver, ConvertMode, is_ascii, Env, Session, Outcome-cases, done, ok, reply_codes,
  Transfer, passive, active,
}
use ftpserverlib.Transfer.{transfer_close, close_transfer, close_transfer_in}
use ftpserverlib.Session.{close_handler}
use ftpserverlib.Files.Copy.{concat, through, copy_through}
use ftpserverlib.Files.Transfers.{
  touch, do_file_transfer, transfer_on, transfer_error_of, reader, writer, conversion_mode,
}
use ftpserverlib.Files.Delivery.{
  expected, through-expected, Appends, Delivered, copy_chunks-Delivered, Delivered-whole, take-nil,
}

module _ {W : Type 0} (contents : W → Bytes) where
  abbrev pub Keeps : {A : Type 0} → Call W A → Type 0
  Keeps f = (w : W) → contents (f w).1 ≡ contents w

  pub copy_through-Delivered :
      (mode : Option ConvertMode) (source : Call W (List Bytes × Option Error))
      (put : Bytes → Call W (ℕ × Option Error)) (w : W)
      → Appends contents put
      → Keeps source
      → let ((n, e), w') = copy_through mode source put w in
        let ((chunks, source_error), w1) = source w in
        Delivered contents (expected mode (concat chunks)) source_error w e w'
  unfolding copy_through
  copy_through-Delivered mode source put w a keeps =
      let ((chunks, source_error), w1) = source w in
      let (k, l, app, all, ended) =
        copy_chunks-Delivered contents put (through mode chunks) source_error 0 w1 a in
      rw (sym (through-expected mode chunks))
        (k, l, app ∙ ap (λ c. c ++ take k (concat (through mode chunks))) (keeps w), all, ended)

module _ {W : Type 0} (env : Env W) (contents : W → Bytes) where
  -- the empty write at the end
  touch-Keeps :
      (nothing write : Bool) (conn handle n : ℕ) (s : Session W)
      → Appends contents (writer env write (env.main.driver n) conn handle)
      → contents (touch env nothing write (env.main.driver n) conn handle s).1.world
        ≡ contents s.world
  touch-Keeps false write conn handle n s a = refl
  touch-Keeps true true conn handle n s a =
      let (within, app, complete, no_eof) = a [] s.world in
      app ∙ ap (λ x. contents s.world ++ x) (take-nil _) ∙ append-nil (contents s.world)
  touch-Keeps true false conn handle n s a =
      let (within, app, complete, no_eof) = a [] s.world in
      app ∙ ap (λ x. contents s.world ++ x) (take-nil _) ∙ append-nil (contents s.world)

  do_file_transfer-Delivered :
      (write : Bool) (conn handle n : ℕ) (s : Session W)
      → s.client.driver ≡ some n
      → Appends contents (writer env write (env.main.driver n) conn handle)
      → Keeps contents (reader env write (env.main.driver n) conn handle)
      → let (r, s') = do_file_transfer env write conn handle s in
        let ((chunks, source_error), w1) =
          reader env write (env.main.driver n) conn handle s.world in
        let mode =
          if is_ascii s.client.current_transfer_type
          then some (conversion_mode env write)
          else none in
        r ≡ done none
        → (contents s'.world ≡ contents s.world ++ expected mode (concat chunks))
          × (write ≡ true → source_error ≡ none)
  unfolding do_file_transfer
  do_file_transfer-Delivered write conn handle n s d a keeps h =
      let dr = env.main.driver n in
      let mode =
        if is_ascii s.client.current_transfer_type
        then some (conversion_mode env write)
        else none in
      let source = reader env write dr conn handle in
      let ((written, e), w') = copy_through mode source (writer env write dr conn handle) s.world in
      let delivered =
        copy_through-Delivered contents mode source (writer env write dr conn handle) s.world a
          keeps in
      let whole =
        Delivered-whole contents (expected mode (concat (source s.world).0.0)) (source s.world).0.1
          s.world e w' delivered in
      let touched = touch-Keeps (written == 0) write conn handle n (record s { world = w' }) a in
      elim (Option-cases e) [
        | inl fine ↦
            let all = whole (λ x is. ground arith) in
            let no_error = delivered.4 fine in ground arith
        | inr (e', bad) ↦ elim (Bool-cases (is_error e' eof)) [
          | inl end ↦ let all = whole (λ x is. ground arith) in ground arith
          | inr other ↦ ground arith
        ]
      ]

  do_file_transfer-same :
      (write : Bool) (conn handle n : ℕ) (s : Session W)
      → s.client.driver ≡ some n
      → ((e : Option Error) × ((do_file_transfer env write conn handle s).0 ≡ done e))
        × ((do_file_transfer env write conn handle s).1.client ≡ s.client)
        × ((do_file_transfer env write conn handle s).1.log ≡ s.log)
  unfolding do_file_transfer
  do_file_transfer-same write conn handle n s d =
      let (r, s1) = do_file_transfer env write conn handle s in
      elim (Outcome-cases r) [
        | inl (e, is_done) ↦ ((e, is_done), ground arith, ground arith)
        | inr (text, is_panic) ↦ absurd (ground arith)
      ]

  longer : (x : ℕ) (xs : List ℕ) → xs ≢ x ∷ xs
  longer x xs e = omega (arith, ap length e)

  close_handler-Keeps :
      (t : Transfer) (w : W)
      → ((l : ℕ) → Keeps contents (env.net.close_listener l))
      → ((c : ℕ) → Keeps contents (env.net.close_conn c))
      → contents (close_handler env t w).1 ≡ contents w
  unfolding close_handler
  close_handler-Keeps (passive t l p tls none info) w kl kc = kl t w
  close_handler-Keeps (passive t l p tls (some c) info) w kl kc = kc c _ ∙ kl t w
  close_handler-Keeps (active raddr tls none info) w kl kc = refl
  close_handler-Keeps (active raddr tls (some c) info) w kl kc = kc c w

  close_transfer_in-Keeps :
      (t : Option Transfer) (s : Session W)
      → ((l : ℕ) → Keeps contents (env.net.close_listener l))
      → ((c : ℕ) → Keeps contents (env.net.close_conn c))
      → (e : Option Error) × (s' : Session W) × (close_transfer_in env t s ≡ (done e, s'))
        × (s'.log ≡ s.log)
        × (contents s'.world ≡ contents s.world)
  close_transfer_in-Keeps none s kl kc = (none, s, refl, refl, refl)
  close_transfer_in-Keeps (some t) s kl kc = (_, _, refl, refl, close_handler-Keeps t s.world kl kc)

  -- the reply of success, and what it says
  transfer_close-succeeds :
      (e : Option Error) (s : Session W)
      → ((l : ℕ) → Keeps contents (env.net.close_listener l))
      → ((c : ℕ) → Keeps contents (env.net.close_conn c))
      → let s' = (transfer_close env e s).1 in
        reply_codes s'.log ≡ 226 ∷ reply_codes s.log
        → (e ≡ none) × (contents s'.world ≡ contents s.world)
  unfolding transfer_close close_transfer get_error_code
  transfer_close-succeeds e s kl kc h =
      let (e', s', is, same_log, kept) = close_transfer_in-Keeps s.client.transfer s kl kc in
      let no_reply = longer 226 (reply_codes s.log) in ground arith

  -- The file and the data connection of a STOR or a RETR, for the bytes at the sink: it is written
  -- by the contract of io.Writer, and nothing but the copy writes to it.
  abbrev pub IsSink : Bool → ClientDriver W → ℕ → ℕ → Type 0
  IsSink write d conn handle =
      Appends contents (writer env write d conn handle)
      × Keeps contents (reader env write d conn handle)
      × Keeps contents (d.close_file handle)
      × ((l : ℕ) → Keeps contents (env.net.close_listener l))
      × ((c : ℕ) → Keeps contents (env.net.close_conn c))

  -- A transfer that ends with 226 has delivered all that its source gave, with the line ends
  -- converted in ASCII mode, behind what the sink held, and nothing else. For an upload the
  -- connection has then ended without an error, and the file was closed without one.
  pub transfer_on-delivers :
      (write : Bool) (conn handle n : ℕ) (s : Session W)
      → s.client.driver ≡ some n
      → IsSink write (env.main.driver n) conn handle
      → let s' = (transfer_on env write handle (ok conn) s).1 in
        let ((chunks, source_error), w1) =
          reader env write (env.main.driver n) conn handle s.world in
        let mode =
          if is_ascii s.client.current_transfer_type
          then some (conversion_mode env write)
          else none in
        reply_codes s'.log ≡ 226 ∷ reply_codes s.log
        → (contents s'.world ≡ contents s.world ++ expected mode (concat chunks))
          × (write ≡ true → source_error ≡ none)
  unfolding transfer_on
  transfer_on-delivers write conn handle n s d (a, kr, kf, kl, kc) h =
      let (r, s1) = do_file_transfer env write conn handle s in
      let ((e, is_done), same_client, same_log) = do_file_transfer-same write conn handle n s d in
      let (close_error, w) = (env.main.driver n).close_file handle s1.world in
      let (no_error, kept) =
        transfer_close-succeeds (transfer_error_of env write e close_error)
          (record s1 { world = w }) kl kc (ground arith) in
      let (delivered, ended) =
        do_file_transfer-Delivered write conn handle n s d a kr (ground arith) in
      let whole = kept ∙ kf s1.world ∙ delivered in (ground arith, ended)
