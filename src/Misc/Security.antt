-- ===== src/Misc/Security.antt =====
-- AUTH, PROT, PBSZ, NOOP, CLNT, MODE, QUIT and the commands that are not implemented.
use ftpserverlib.Codes.{
  status_action_not_taken, status_auth_accepted, status_closing_control_conn,
  status_command_not_implemented, status_not_implemented_param, status_ok,
}
use ftpserverlib.Prelude.{Bool, true, false, ◌++◌, Option, none, some}
use ftpserverlib.Text.{Bytes, codes, equal}
use ftpserverlib.Errors.{Error, error_string}
use ftpserverlib.Session.{Env, M, pure, call, modify, reply, disconnect, ◌>>=◌, ◌>>◌}

module _ {W : Type 0} where
  -- PROT: P for private, all else is clear.
  unfoldable pub handle_prot : Bytes → M W (Option Error)
  handle_prot param = do
    modify (λ c. record c { transfer_tls = equal param (codes "P") })
    reply status_ok (codes "OK")
    pure none

  unfoldable pub handle_pbsz : Bytes → M W (Option Error)
  handle_pbsz _ = do reply status_ok (codes "Whatever"); pure none

  unfoldable pub handle_noop : Bytes → M W (Option Error)
  handle_noop _ = do reply status_ok (codes "OK"); pure none

  unfoldable pub handle_clnt : Bytes → M W (Option Error)
  handle_clnt param = do
    modify (λ c. record c { clnt = param })
    reply status_ok (codes "Good to know")
    pure none

  abbrev mode_reply : Bool → M W (Option Error)
  mode_reply true = do reply status_ok (codes "Using stream mode"); pure none
  mode_reply false = do reply status_not_implemented_param (codes "Unsupported mode"); pure none

  unfoldable pub handle_mode : Bytes → M W (Option Error)
  handle_mode param = mode_reply (equal param (codes "S"))

  unfoldable pub handle_not_implemented : Bytes → M W (Option Error)
  handle_not_implemented _ = do
    reply status_command_not_implemented (codes "This command hasn't been implemented !")
    pure none

module _ {W : Type 0} (env : Env W) where
  abbrev auth_config : Option Error → M W (Option Error)
  auth_config none = do
    reply status_auth_accepted (codes "AUTH command ok. Expecting TLS Negotiation.")
    modify (λ c. record c { conn_is_tls = true; has_reader = true })
    modify (λ c. record c { control_tls = true })
    pure none
  auth_config (some e) = do
    reply status_action_not_taken (codes "Cannot get a TLS config: " ++ error_string e)
    pure none

  unfoldable pub handle_auth : Bytes → M W (Option Error)
  handle_auth _ = do r ← call env.main.get_tls_config; auth_config r.1

  abbrev quit_text : Bool → M W Bytes
  quit_text true = call env.main.quit_message
  quit_text false = pure (codes "Goodbye")

  unfoldable pub handle_quit : Bytes → M W (Option Error)
  handle_quit _ = do
    text ← quit_text env.main.has_quit_message
    reply status_closing_control_conn text
    disconnect
    modify (λ c. record c { has_reader = false })
    pure none
