-- ===== src/Auth/Laws.antt =====
-- Who gets past USER and PASS.
use ftpserverlib.Prelude.{ℕ, true, false, ◌∷◌, none, some, ◌≡◌, ◌≢◌, ◌⊎◌, arith}
use ftpserverlib.Text.{Bytes}
use ftpserverlib.Session.{
  Env, Session, mandatory_encryption, apply_context, apply_context-Kept, apply_context-open,
  asks_close, reply_codes,
}
use ftpserverlib.Auth.Handlers.{handle_user, handle_pass}

module _ {W : Type 0} (env : Env W) where
  -- Where the settings require TLS, USER on a connection without it logs nobody in: the user and
  -- the driver stay what they were, the connection is closed, and the only reply is 421, or 530
  -- where the driver refuses the name first.
  pub handle_user-requires_tls :
      (name : Bytes) (s : Session W)
      → env.settings.tls_required ≡ mandatory_encryption
      → s.client.control_tls ≡ false
      → let s' = (handle_user env name s).1 in
        (s'.client.user ≡ s.client.user)
        × (s'.client.driver ≡ s.client.driver)
        × (s'.client.closed ≡ true)
        × ((reply_codes s'.log ≡ 421 ∷ reply_codes s.log)
            ⊎ (reply_codes s'.log ≡ 530 ∷ reply_codes s.log))
  unfolding handle_user
  handle_user-requires_tls name s m t =
      let (e, calls, w) = env.main.pre_auth_user name s.world in
      let kept = apply_context-Kept env calls s.client w in
      (ground arith, ground arith, ground arith, ground arith)

  -- Whatever AuthUser gives is the client's driver from then on, with an error too. PASS answers 230
  -- exactly when it gave a driver and no error; then the connection is open as it was, unless the
  -- driver itself closed it. Else PASS answers 530 and closes the connection.
  pub handle_pass-login :
      (param : Bytes) (s : Session W)
      → let ((given, e), calls, w) = env.main.auth_user s.client.user param s.world in
        let s' = (handle_pass env param s).1 in
        let (c, w1) = apply_context env calls s.client w in
        let later = (env.main.post_auth_message s.client.user e w1).1 in
        (s'.client.driver ≡ given)
        × ((driver : ℕ)
            → given ≡ some driver
            → e ≡ none
            → (reply_codes s'.log ≡ 230 ∷ reply_codes s.log)
              × (asks_close calls ≡ false
                  → asks_close later ≡ false
                  → s'.client.closed ≡ s.client.closed))
        × ((given ≡ none) ⊎ (e ≢ none)
            → (s'.client.closed ≡ true) × (reply_codes s'.log ≡ 530 ∷ reply_codes s.log))
  unfolding handle_pass
  handle_pass-login param s =
      let ((given, e), calls, w) = env.main.auth_user s.client.user param s.world in
      let kept = apply_context-Kept env calls s.client w in
      let still = apply_context-open env calls s.client w in
      let (c, w1) = apply_context env calls s.client w in
      let (text, calls2, w2) = env.main.post_auth_message s.client.user e w1 in
      let c1 = record c { driver = given } in
      let kept2 = apply_context-Kept env calls2 c1 w2 in
      let still2 = apply_context-open env calls2 c1 w2 in
      (
        ground arith,
        λ d is_given no_error.
            (ground arith, λ o1 o2. let a = still o1 in let b = still2 o2 in ground arith),
        λ n. ground arith,
      )
