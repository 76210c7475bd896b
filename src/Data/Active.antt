-- ===== src/Data/Active.antt =====
-- handlePORT, parsePORTAddr and parseEPRTAddr of transfer_active.go.
use ftpserverlib.Codes.{status_ok, status_service_not_available, status_syntax_error_parameters}
use ftpserverlib.Prelude.{
  ℕ, ◌+◌, ◌*◌, Bool, true, false, ◌&&◌, ◌||◌, List, [], ◌∷◌, ◌++◌, Option, none, some, leb,
  if◌then◌else◌, length,
}
use ftpserverlib.Prelude.Int.{pos}
use ftpserverlib.Text.{Bytes, codes, equal, has_byte, split, join}
use ftpserverlib.Text.Decimal.{Number, number, decimal, parse_int, is_digit}
use ftpserverlib.Errors.{Error, sentinel, remote_addr_format, wrapped, network_error, error_string}
use ftpserverlib.Session.{
  Result, ok, err, Ip, TcpAddr, active_channel, Env, active, M, pure, gets, call, modify, reply,
  has_tls_for_transfers, is_implicit, ◌>>=◌, ◌>>◌,
}
use ftpserverlib.Transfer.{check_data_connection_requirement}

abbrev pub all_digits : Bytes → Bool
all_digits [] = true
all_digits (c ∷ s) = is_digit 10 c && all_digits s

-- [0-9]{1,3}
abbrev pub is_octet : Bytes → Bool
is_octet s = leb 1 (length s) && (leb (length s) 3 && all_digits s)

-- remoteAddrRegex, on the parts between the commas
unfoldable pub matches_remote_addr : List Bytes → Bool
matches_remote_addr (h1 ∷ h2 ∷ h3 ∷ h4 ∷ p1 ∷ p2 ∷ []) =
    is_octet h1 && (is_octet h2 && (is_octet h3 && (is_octet h4 && (is_octet p1 && is_octet p2))))
matches_remote_addr _ = false

-- What a text asks net to resolve, or why it is refused.
abbrev remote_format {ℓ} : {A : Type ℓ} → Result A
remote_format = err (sentinel remote_addr_format)

abbrev port_of : Bytes → Number → Number → Result Bytes
port_of host (number (pos byte1)) (number (pos byte2)) =
    ok (host ++ (b':' ∷ decimal (byte1 * 256 + byte2)))
port_of host _ _ = remote_format

abbrev port_address : List Bytes → Result Bytes
port_address (h1 ∷ h2 ∷ h3 ∷ h4 ∷ p1 ∷ p2 ∷ _) =
    port_of (join b'.' (h1 ∷ h2 ∷ h3 ∷ h4 ∷ [])) (parse_int 64 p1) (parse_int 64 p2)
port_address _ = remote_format

abbrev port_matched : Bool → Bytes → List Bytes → Result Bytes
port_matched true param parts = port_address parts
port_matched false param parts =
    err (wrapped (codes "could not parse " ++ param) (sentinel remote_addr_format))

-- parsePORTAddr up to the call of ResolveTCPAddr
unfoldable pub parse_port_addr : Bytes → Result Bytes
unfolding matches_remote_addr split join
parse_port_addr param =
    port_matched (matches_remote_addr (split b',' param)) param (split b',' param)

-- net.JoinHostPort
unfoldable pub join_host_port : Bytes → Bytes → Bytes
unfolding has_byte
join_host_port host port =
    if has_byte b':' host || has_byte b'%' host
    then (b'[' ∷ host) ++ (b']' ∷ b':' ∷ port)
    else host ++ (b':' ∷ port)

module _ {W : Type 0} (env : Env W) where
  -- the text to resolve, and the texts of the error, for an address that was parsed
  abbrev eprt_ip : Option Ip → ℕ → Result (Bytes × Bytes)
  eprt_ip none port = remote_format
  eprt_ip (some ip) port = ok (
    join_host_port (env.net.ip_text ip) (decimal port),
    codes "could not resolve addr " ++ env.net.ip_text ip ++ codes ":" ++ decimal port,
  )

  abbrev eprt_protocol : Bool → Bytes → ℕ → Result (Bytes × Bytes)
  eprt_protocol true remote_ip port = eprt_ip (env.net.parse_ip remote_ip) port
  eprt_protocol false remote_ip port = remote_format

  abbrev eprt_port : Bytes → Bytes → Number → Result (Bytes × Bytes)
  eprt_port protocol remote_ip (number (pos port)) =
      if leb 1 port && leb port 65535
      then eprt_protocol (equal protocol (codes "1") || equal protocol (codes "2")) remote_ip port
      else remote_format
  eprt_port protocol remote_ip _ = remote_format

  abbrev eprt_parts : List Bytes → Result (Bytes × Bytes)
  eprt_parts (_ ∷ protocol ∷ remote_ip ∷ remote_port ∷ _ ∷ []) =
      eprt_port protocol remote_ip (parse_int 64 remote_port)
  eprt_parts _ = remote_format

  -- parseEPRTAddr up to the call of ResolveTCPAddr
  unfoldable pub parse_eprt_addr : Bytes → Result (Bytes × Bytes)
  parse_eprt_addr param = eprt_parts (split b'|' param)

  abbrev with_network_error : Bytes → Result TcpAddr → Result TcpAddr
  with_network_error text (ok addr) = ok addr
  with_network_error text (err e) = err (network_error text e)

  abbrev resolve_eprt : Result (Bytes × Bytes) → M W (Result TcpAddr)
  resolve_eprt (err e) = pure (err e)
  resolve_eprt (ok (address, text)) = do
    r ← call (env.net.resolve_tcp_addr address)
    pure (with_network_error text r)

  abbrev resolve_port : Bytes → Result Bytes → M W (Result TcpAddr)
  resolve_port param (err e) = pure (err e)
  resolve_port param (ok address) = do
    r ← call (env.net.resolve_tcp_addr address)
    pure (with_network_error (codes "could not resolve " ++ param) r)

  abbrev parse_remote : Bool → Bytes → M W (Result TcpAddr)
  parse_remote true param = resolve_eprt (parse_eprt_addr param)
  parse_remote false param = resolve_port param (parse_port_addr param)

  -- A transfer that is pending is replaced and not closed.
  abbrev port_install : TcpAddr → Bool → Bytes → M W (Option Error)
  port_install raddr tls command = do
    modify (λ c. record c {
      transfer = some (active raddr tls none []);
      last_data_channel = some active_channel;
    })
    reply status_ok (command ++ codes " command successful")
    pure none

  abbrev port_tls : TcpAddr → Bytes → Bool × Option Error → M W (Option Error)
  port_tls raddr command (present, none) = port_install raddr present command
  port_tls raddr command (present, some e) = do
    reply status_service_not_available
        (codes "Cannot get a TLS config for active connection: " ++ error_string e)
    pure none

  abbrev port_protect : Bool → TcpAddr → Bytes → M W (Option Error)
  port_protect false raddr command = port_install raddr false command
  port_protect true raddr command = do r ← call env.main.get_tls_config; port_tls raddr command r

  abbrev port_checked : TcpAddr → Bytes → Option Error → M W (Option Error)
  port_checked raddr command (some e) = do
    reply status_syntax_error_parameters
        (codes "Your request does not meet the configured security requirements")
    pure none
  port_checked raddr command none = do
    tls ← gets (λ c. has_tls_for_transfers env.settings c || is_implicit env.settings.tls_required)
    port_protect tls raddr command

  abbrev port_parsed : Bytes → Bytes → Result TcpAddr → M W (Option Error)
  port_parsed param command (err e) = do
    reply status_syntax_error_parameters
        (codes "Problem parsing " ++ param ++ codes ": " ++ error_string e)
    pure none
  port_parsed param command (ok raddr) =
      port_checked raddr command (check_data_connection_requirement env raddr.ip active_channel)

  abbrev handle_port_at : Bool → Bytes → Bytes → M W (Option Error)
  handle_port_at true param command = do
    reply status_service_not_available (command ++ codes " command is disabled")
    pure none
  handle_port_at false param command = do
    r ← parse_remote (equal command (codes "EPRT")) param
    port_parsed param command r

  unfoldable pub handle_port : Bytes → M W (Option Error)
  handle_port param = do
    command ← gets (λ c. c.command)
    handle_port_at env.settings.disable_active_mode param command
