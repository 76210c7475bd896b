-- ===== src/Auth/Handlers.antt =====
-- USER and PASS: handle_auth.go.
use ftpserverlib.Codes.{
  status_not_logged_in, status_service_not_available, status_user_logged_in, status_user_ok,
}
use ftpserverlib.Prelude.{
  ℕ, Bool, true, false, not, ◌&&◌, [], ◌++◌, Option, none, some, if◌then◌else◌,
}
use ftpserverlib.Text.{Bytes, codes, equal}
use ftpserverlib.Errors.{Error, error_string}
use ftpserverlib.Session.{
  Env, M, pure, gets, callback, modify, reply, disconnect, is_tls_required, has_tls_for_control,
  ◌>>=◌, ◌>>◌,
}

module _ {W : Type 0} (env : Env W) where
  abbrev pub refuse_user : Bytes → Error → M W (Option Error)
  refuse_user text e = do reply status_not_logged_in (text ++ error_string e); disconnect; pure none

  abbrev pub accept_name : Bytes → M W (Option Error)
  accept_name user = do
    modify (λ c. record c { user = user })
    reply status_user_ok (codes "OK")
    pure none

  abbrev pub verified : Bytes → Option ℕ × Option Error → M W (Option Error)
  verified user (driver, some e) = refuse_user (codes "TLS verification failed: ") e
  verified user (none, none) = accept_name user
  verified user (some driver, none) = do
    modify (λ c. record c { user = user; driver = some driver })
    reply status_user_logged_in (codes "TLS certificate ok, continue")
    pure none

  -- handleUserTLS, and what handleUSER does where it answers false
  abbrev pub user_tls : Bool → Bytes → M W (Option Error)
  user_tls false user = accept_name user
  user_tls true user = do r ← callback env (env.main.verify_connection user); verified user r

  abbrev pub user_unless : Bool → Bytes → M W (Option Error)
  user_unless true user = do
    reply status_service_not_available (codes "TLS is required")
    disconnect
    pure none
  user_unless false user = do
    verify ←
        gets
          (λ c. has_tls_for_control env.settings c && (env.main.has_tls_verifier && c.conn_is_tls))
    user_tls verify user

  abbrev pub user_allowed : Bytes → M W (Option Error)
  user_allowed user = do
    unprotected ←
        gets (λ c. is_tls_required env.settings c && not (has_tls_for_control env.settings c))
    user_unless unprotected user

  abbrev pub user_verified : Bytes → Option Error → M W (Option Error)
  user_verified user none = user_allowed user
  user_verified user (some e) = refuse_user (codes "User rejected: ") e

  abbrev pub user_from : Bool → Bytes → M W (Option Error)
  user_from false user = user_allowed user
  user_from true user = do e ← callback env (env.main.pre_auth_user user); user_verified user e

  unfoldable pub handle_user : Bytes → M W (Option Error)
  handle_user user = user_from env.main.has_user_verifier user

  abbrev or_text : Bytes → Bytes → Bytes
  or_text text default = if equal text [] then default else text

  abbrev pub pass_reply : Option ℕ → Option Error → Bytes → M W (Option Error)
  pass_reply none none text = do
    reply status_not_logged_in (codes "Unexpected exception (driver is nil)")
    disconnect
    pure none
  pass_reply driver (some e) text = do
    reply status_not_logged_in (or_text text (codes "Authentication error: " ++ error_string e))
    disconnect
    pure none
  pass_reply (some driver) none text = do
    reply status_user_logged_in (or_text text (codes "Password ok, continue"))
    pure none

  abbrev pub post_auth : Bool → Bytes → Option Error → M W Bytes
  post_auth false user e = pure []
  post_auth true user e = callback env (env.main.post_auth_message user e)

  abbrev pub authenticated : Bytes → Option ℕ × Option Error → M W (Option Error)
  authenticated user r = do
    modify (λ c. record c { driver = r.0 })
    text ← post_auth env.main.has_post_auth_message user r.1
    pass_reply r.0 r.1 text

  unfoldable pub handle_pass : Bytes → M W (Option Error)
  handle_pass param = do
    user ← gets (λ c. c.user)
    r ← callback env (env.main.auth_user user param)
    authenticated user r
