-- ===== src/Transfer/Defs.antt =====
-- The transfer connection as code.
use ftpserverlib.Codes.{
  status_action_not_taken, status_cannot_open_data_connection, status_closing_data_conn,
  status_file_status_ok, status_service_not_available, status_transfer_aborted,
}
use ftpserverlib.Prelude.{
  ℕ, Bool, true, false, not, ◌&&◌, [], ◌∷◌, ◌++◌, Option, none, some, ◌==◌, if◌then◌else◌, length,
}
use ftpserverlib.Text.{Bytes, codes, equal}
use ftpserverlib.Text.Decimal.{format_int}
use ftpserverlib.Errors.{
  Error, sentinel, ip_validation, wrapped, network_error, no_transfer_connection, tls_required,
  error_string, get_error_code,
}
use ftpserverlib.Session.{
  Result, ok, err, DataChannel, passive_channel, active_channel, DataConnectionRequirement,
  ip_match_required, ip_match_disabled, other_check, Ip, Conn, Env, Client, Transfer, passive,
  active, M, pure, gets, call, modify, reply, ◌>>=◌, ◌>>◌, when◌then◌else◌, is_tls_required,
  has_tls_for_transfers, close_handler, or_nil, TcpAddr,
}

-- net.IP's Equal: an IPv4 address is equal to its IPv6 form.
abbrev pub v4_in_v6 : Ip
v4_in_v6 = 0 ∷ 0 ∷ 0 ∷ 0 ∷ 0 ∷ 0 ∷ 0 ∷ 0 ∷ 0 ∷ 0 ∷ 255 ∷ 255 ∷ []

unfoldable pub ip_equal : Ip → Ip → Bool
unfolding equal
ip_equal x y =
    if length x == length y
    then equal x y
    else if length x == 4 && length y == 16
    then equal (v4_in_v6 ++ x) y
    else length x == 16 && length y == 4 && equal x (v4_in_v6 ++ y)

-- GetInfo
abbrev pub get_info : Transfer → Bytes
get_info (passive t l p tls conn info) = info
get_info (active raddr tls conn info) = info

-- GetTranferInfo
unfoldable pub get_transfer_info : Client → Bytes
get_transfer_info c = elim c.transfer [ none ↦ [] | some t ↦ get_info t ]

module _ {W : Type 0} (env : Env W) where
  abbrev from_text : Bytes → Option Ip → Result Ip
  from_text address none = err (ip_validation (codes "invalid remote IP: " ++ address))
  from_text address (some ip) = ok ip

  abbrev from_host : Result (Bytes × Bytes) → Result Ip
  from_host (err e) = err (wrapped (codes "error parsing remote address") e)
  from_host (ok (host, port)) = from_text host (env.net.parse_ip host)

  -- getIPFromRemoteAddr
  unfoldable pub get_ip_from_remote_addr : Option Bytes → Result Ip
  get_ip_from_remote_addr none = err (ip_validation (codes "nil remote address"))
  get_ip_from_remote_addr (some address) = from_host (env.net.split_host_port address)

  abbrev pub requirement_of : DataChannel → DataConnectionRequirement
  requirement_of active_channel = env.settings.active_connections_check
  requirement_of passive_channel = env.settings.pasv_connections_check

  abbrev match_ips : Ip → Result Ip → Option Error
  match_ips data_conn_ip (err e) = some e
  match_ips data_conn_ip (ok control_conn_ip) =
      if not (ip_equal control_conn_ip data_conn_ip)
      then some (
          ip_validation (
            codes "data connection ip address "
            ++ env.net.ip_text data_conn_ip
            ++ codes " does not match control connection ip address "
            ++ env.net.ip_text control_conn_ip))
      else none

  abbrev check_requirement : DataConnectionRequirement → Ip → Option Error
  check_requirement ip_match_required data_conn_ip =
      match_ips data_conn_ip (get_ip_from_remote_addr env.net.remote_addr)
  check_requirement ip_match_disabled data_conn_ip = none
  check_requirement (other_check n) data_conn_ip =
      some (ip_validation (codes "unhandled data connection requirement: " ++ format_int n))

  -- checkDataConnectionRequirement
  unfoldable pub check_data_connection_requirement : Ip → DataChannel → Option Error
  unfolding ip_equal get_ip_from_remote_addr
  check_data_connection_requirement data_conn_ip channel =
      check_requirement (requirement_of channel) data_conn_ip

  abbrev set_connection : ℕ → Transfer → Transfer
  set_connection conn (passive t l p tls _ info) = passive t l p tls (some conn) info
  set_connection conn (active raddr tls _ info) = active raddr tls (some conn) info

  abbrev set_info : Bytes → Transfer → Transfer
  set_info info (passive t l p tls conn _) = passive t l p tls conn info
  set_info info (active raddr tls conn _) = active raddr tls conn info

  abbrev checked : ℕ → Option Error → Result ℕ
  checked conn none = ok conn
  checked conn (some e) =
      err (ip_validation (codes "data connection security requirements not met"))

  abbrev check_remote : ℕ → Result Ip → Result ℕ
  check_remote conn (err e) = err e
  check_remote conn (ok ip) = checked conn (check_data_connection_requirement ip passive_channel)

  -- The accepted connection is kept in the handler before it is checked.
  abbrev pub accepted : Transfer → Result Conn → Result ℕ × Transfer
  accepted t (err e) = (err (wrapped (codes "failed to accept passive transfer connection") e), t)
  accepted t (ok conn) = (
    check_remote conn.conn_id (get_ip_from_remote_addr conn.conn_remote),
    set_connection conn.conn_id t,
  )

  abbrev pub dialled : Transfer → Result Conn → Result ℕ × Transfer
  dialled t (err e) = (err (network_error (codes "could not establish active connection") e), t)
  dialled t (ok conn) = (ok conn.conn_id, set_connection conn.conn_id t)

  -- the port 20, as far as it can be resolved, unless the settings leave the port open
  abbrev local_addr : Bool → W → Option TcpAddr × W
  local_addr true w = (none, w)
  local_addr false w = let (r, w') = env.net.resolve_tcp_addr (codes ":20") w in (or_nil r, w')

  -- Open of the two handlers: ConnectionWait for the passive one, whose deadline is the network's.
  unfoldable pub open_transfer : Transfer → W → (Result ℕ × Transfer) × W
  unfolding check_data_connection_requirement
  open_transfer (passive t l p tls (some conn) info) w =
      ((ok conn, passive t l p tls (some conn) info), w)
  open_transfer (passive t l p tls none info) w =
      let (r, w') = env.net.accept l w in (accepted (passive t l p tls none info) r, w')
  open_transfer (active raddr tls conn info) w =
      let (local, w') = local_addr env.settings.active_transfer_port_non20 w in
      let (r, w'') = env.net.dial local raddr w' in (dialled (active raddr tls conn info) r, w'')

  abbrev wrap_close_error : Option Error → Option Error
  wrap_close_error none = none
  wrap_close_error (some e) = some (wrapped (codes "error closing transfer connection") e)

  abbrev pub close_transfer_in : Option Transfer → M W (Option Error)
  close_transfer_in none = pure none
  close_transfer_in (some t) = do
    e ← call (close_handler env t)
    modify (λ c. record c { is_transfer_open = false; transfer = none })
    pure (wrap_close_error e)

  -- closeTransfer
  unfoldable pub close_transfer : M W (Option Error)
  close_transfer s = close_transfer_in s.client.transfer s

  abbrev opened : Bytes → Result ℕ × Transfer → M W (Result ℕ)
  opened info (err e, t) = do
    modify (λ c. record c { transfer = some t })
    reply status_cannot_open_data_connection (error_string e)
    pure (err (network_error (codes "Unable to open transfer") e))
  opened info (ok conn, t) = do
    modify (λ c. record c { is_transfer_open = true; transfer = some (set_info info t) })
    reply status_file_status_ok (codes "Using transfer connection")
    pure (ok conn)

  abbrev no_transfer : Bool → M W (Result ℕ)
  no_transfer true = do
    modify (λ c. record c { is_transfer_aborted = false })
    pure (err (sentinel no_transfer_connection))
  no_transfer false = do
    reply status_action_not_taken (error_string (sentinel no_transfer_connection))
    pure (err (sentinel no_transfer_connection))

  abbrev open_unless : Bool → Bytes → Transfer → M W (Result ℕ)
  open_unless true info t = do
    reply status_service_not_available (error_string (sentinel tls_required))
    pure (err (sentinel tls_required))
  open_unless false info t = do r ← call (open_transfer t); opened info r

  abbrev transfer_open_in : Bytes → Option Transfer → M W (Result ℕ)
  transfer_open_in info none = do aborted ← gets (λ c. c.is_transfer_aborted); no_transfer aborted
  transfer_open_in info (some t) = do
    unprotected ←
        gets (λ c. is_tls_required env.settings c && not (has_tls_for_transfers env.settings c))
    open_unless unprotected info t

  -- TransferOpen
  unfoldable pub transfer_open : Bytes → M W (Result ℕ)
  transfer_open info s = transfer_open_in info s.client.transfer s

  abbrev close_reply : Option Error → Option Error → M W (Unit {0})
  close_reply none none = reply status_closing_data_conn (codes "Closing transfer connection")
  close_reply e (some e') =
      reply status_action_not_taken (codes "Issue during transfer close: " ++ error_string e')
  close_reply (some e) none =
      reply (get_error_code e status_action_not_taken)
        (codes "Issue during transfer: " ++ error_string e)

  -- TransferClose
  unfoldable pub transfer_close : Option Error → M W (Unit {0})
  unfolding close_transfer
  transfer_close e = do
    close_error ← close_transfer
    aborted ← gets (λ c. c.is_transfer_aborted)
    when aborted
        then modify (λ c. record c { is_transfer_aborted = false })
        else close_reply e close_error

  abbrev abort_reply : Bool → M W (Unit {0})
  abort_reply true = reply status_transfer_aborted (codes "Connection closed; transfer aborted")
  abort_reply false = pure tt

  abbrev abort_transfer : Option Transfer → M W (Unit {0})
  abort_transfer none = pure tt
  abort_transfer (some t) = do
    is_opened ← gets (λ c. c.is_transfer_open)
    modify (λ c. record c { is_transfer_aborted = true })
    close_transfer
    abort_reply is_opened

  -- handleABOR
  unfoldable pub handle_abor : Bytes → M W (Option Error)
  unfolding close_transfer
  handle_abor param = do
    transfer ← gets (λ c. c.transfer)
    abort_transfer transfer
    reply status_closing_data_conn (codes "ABOR successful; closing transfer connection")
    pure none
