-- ===== src/Data/Pending.antt =====
-- What PORT and EPRT do to the transfer connection of a client.
use ftpserverlib.Prelude.{ℕ, Bool, true, false, ◌∷◌, Option, none, some, ◌≡◌, ◌≢◌, arith}
use ftpserverlib.Text.{Bytes}
use ftpserverlib.Session.{
  Env, Session, Transfer, active, active_channel, TcpAddr, reply_codes, has_tls_for_transfers,
}
use ftpserverlib.Transfer.{check_data_connection_requirement}
use ftpserverlib.Data.Active.{handle_port}

module _ {W : Type 0} (env : Env W) where
  -- PORT and EPRT set up an active transfer only where active mode is enabled and the address
  -- passes the check of data connections; it has no connection yet, the reply is 200, and it is
  -- encrypted only where transfers are protected.
  pub handle_port-checked :
      (param : Bytes) (s : Session W) (raddr : TcpAddr) (tls : Bool) (conn : Option ℕ)
      (info : Bytes)
      → let s' = (handle_port env param s).1 in
        s'.client.transfer ≡ some (active raddr tls conn info)
        → s.client.transfer ≢ some (active raddr tls conn info)
        → (env.settings.disable_active_mode ≡ false)
          × (check_data_connection_requirement env raddr.ip active_channel ≡ none)
          × (conn ≡ none)
          × (tls ≡ true → has_tls_for_transfers env.settings s.client ≡ true)
          × (reply_codes s'.log ≡ 200 ∷ reply_codes s.log)
  unfolding handle_port
  handle_port-checked param s raddr tls conn info i n = ground arith

  -- PORT and EPRT take no notice of a transfer that is pending: what they do to the world, and so
  -- to its listener, is the same with and without one. The listener of an earlier PASV is thus
  -- not closed where the new transfer takes its place.
  pub handle_port-ignores_pending :
      (param : Bytes) (s : Session W) (pending : Option Transfer)
      → (handle_port env param
          (record s { client = record (s.client) { transfer = pending } })).1.world
        ≡ (handle_port env param s).1.world
  unfolding handle_port
  handle_port-ignores_pending param s pending = ground arith
