-- ===== src/Transfer/Open.antt =====
-- When a transfer connection is handed out: TLS and the address of the peer.
use ftpserverlib.Prelude.{
  refl, inl, inr, Option-cases, ℕ, Bool, true, false, ◌∷◌, none, some, ◌≡◌, ◌≢◌, ◌⊎◌, arith,
}
use ftpserverlib.Text.{Bytes, codes}
use ftpserverlib.Errors.{Error, network_error, ip_validation}
use ftpserverlib.Session.{
  ok, err, Result-cases, DataConnectionRequirement, DataChannel, passive_channel, ip_match_required,
  ip_match_disabled, Ip, Conn, Env, passive, Session, done, message, is_tls_required,
  has_tls_for_transfers,
}
use ftpserverlib.Transfer.Defs.{
  ip_equal, get_ip_from_remote_addr, check_data_connection_requirement, open_transfer,
  transfer_open, requirement_of,
}

module _ {W : Type 0} (env : Env W) where
  -- What IPMatchRequired and IPMatchDisabled ask of the peer of a data connection.
  abbrev pub PeerAllowed : DataConnectionRequirement → Ip → Type 0
  PeerAllowed requirement ip =
      (requirement ≡ ip_match_disabled)
      ⊎ ((requirement ≡ ip_match_required)
          × ((control : Ip) × (get_ip_from_remote_addr env env.net.remote_addr ≡ ok control)
              × (ip_equal control ip ≡ true)))

  pub check_data_connection_requirement-PeerAllowed :
      (ip : Ip) (channel : DataChannel) (requirement : DataConnectionRequirement)
      → requirement_of env channel ≡ requirement
      → check_data_connection_requirement env ip channel ≡ none
      → PeerAllowed requirement ip
  unfolding check_data_connection_requirement
  check_data_connection_requirement-PeerAllowed ip channel requirement r h = ground arith

  -- A data connection that TransferOpen accepts from the listener of a PASV and hands out comes from
  -- the host of the control connection, unless the settings disable the check of passive
  -- connections: no other value of that setting, and nothing that the settings say of active
  -- connections, lets a peer in.
  pub transfer_open-PeerAllowed :
      (info old : Bytes) (t l p conn : ℕ) (tls : Bool) (s s' : Session W) (c : Conn) (w : W)
      → s.client.transfer ≡ some (passive t l p tls none old)
      → env.net.accept l s.world ≡ (ok c, w)
      → transfer_open env info s ≡ (done (ok conn), s')
      → (conn ≡ c.conn_id)
        × ((ip : Ip) × (get_ip_from_remote_addr env c.conn_remote ≡ ok ip)
            × PeerAllowed env.settings.pasv_connections_check ip)
  unfolding transfer_open open_transfer
  transfer_open-PeerAllowed info old t l p conn tls s s' c w is accepts opens =
      elim (Result-cases (get_ip_from_remote_addr env c.conn_remote)) [
        | inr (e, bad) ↦ absurd (ground arith)
        | inl (ip, good) ↦
            elim (Option-cases (check_data_connection_requirement env ip passive_channel)) [
              | inr (e, bad) ↦ absurd (ground arith)
              | inl passes ↦ (
                ground arith,
                (
                  ip,
                  good,
                  check_data_connection_requirement-PeerAllowed ip passive_channel _ refl passes,
                ),
              )
            ]
      ]

  -- Where TLS is required, no data connection is handed out unless transfers are protected; the
  -- client then gets 150, and the session holds the open transfer.
  pub transfer_open-protected :
      (info : Bytes) (conn : ℕ) (s s' : Session W)
      → transfer_open env info s ≡ (done (ok conn), s')
      → (is_tls_required env.settings s.client ≡ true
          → has_tls_for_transfers env.settings s.client ≡ true)
        × (s'.client.is_transfer_open ≡ true)
        × (s'.client.transfer ≢ none)
        × (s'.log ≡ message 150 (codes "Using transfer connection") ∷ s.log)
  unfolding transfer_open
  transfer_open-protected info conn s s' h =
      (ground arith, ground arith, ground arith, ground arith)

  -- A passive data connection that fails the check of its address is refused once, and kept: with
  -- no TLS requirement in the way, the next transfer command is given that very connection, with
  -- no check at all.
  pub transfer_open-retry_unchecked :
      (info again : Bytes) (s : Session W) (t l p : ℕ) (tls : Bool) (old : Bytes) (c : Conn) (w : W)
      (ip : Ip) (e : Error)
      → s.client.transfer ≡ some (passive t l p tls none old)
      → is_tls_required env.settings s.client ≡ false
      → env.net.accept l s.world ≡ (ok c, w)
      → get_ip_from_remote_addr env c.conn_remote ≡ ok ip
      → check_data_connection_requirement env ip passive_channel ≡ some e
      → ((e' : Error) × ((transfer_open env info s).0 ≡ done (err e')))
        × ((transfer_open env again (transfer_open env info s).1).0 ≡ done (ok c.conn_id))
  unfolding transfer_open open_transfer
  transfer_open-retry_unchecked info again s t l p tls old c w ip e a b n g r = (
    (
      network_error (codes "Unable to open transfer")
          (ip_validation (codes "data connection security requirements not met")),
      ground arith,
    ),
    ground arith,
  )
