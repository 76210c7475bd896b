-- ===== src/Server/Accept.antt =====
-- FtpServer of server.go: its settings, its listener, and the loop that accepts connections.
use ftpserverlib.Prelude.{
  ℕ, ◌+◌, ◌*◌, ◌%◌, ◌^◌, Bool, true, false, ◌&&◌, List, [], ◌∷◌, ◌++◌, Option, none, some, ltb,
  ◌==◌, if◌then◌else◌, length, take, drop,
}
use ftpserverlib.Text.{Bytes, codes, equal}
use ftpserverlib.Text.Quote.{quote}
use ftpserverlib.Errors.{
  Error, sentinel, not_listening, ip_validation, wrapped, driver_error, network_error,
  bare_driver_error,
}
use ftpserverlib.Session.{
  Result, ok, err, Settings, Ip, MainDriver, Network, Client, new_client_handler, is_implicit,
}
use ftpserverlib.Transfer.{v4_in_v6}

-- net.IP's To4
unfoldable pub to_4 : Ip → Option Ip
unfolding equal
to_4 ip =
    if length ip == 4
    then some ip
    else if length ip == 16 && equal (take 12 ip) v4_in_v6
    then some (drop 12 ip)
    else none

-- The listener by its number, and whether it does TLS.
pub record ServerListener : Type 0 where
  pub socket : ℕ
  pub implicit_tls : Bool

pub record FtpServer : Type 0 where
  pub server_settings : Option Settings
  pub server_listener : Option ServerListener
  pub client_counter : ℕ

-- NewFtpServer
abbrev pub new_ftp_server : FtpServer
new_ftp_server = record { server_settings = none; server_listener = none; client_counter = 0 }

abbrev or_default : ℕ → ℕ → ℕ
or_default default n = if n == 0 then default else n

abbrev listen_default : Option ℕ → Bytes → Bytes
listen_default none addr = if equal addr [] then codes "0.0.0.0:2121" else addr
listen_default (some _) addr = addr

-- The defaults of loadSettings.
unfoldable pub with_defaults : Settings → Settings
unfolding equal
with_defaults settings = record settings {
  listen_addr = listen_default settings.settings_listener settings.listen_addr;
  idle_timeout = or_default 900 settings.idle_timeout;
  connection_timeout = or_default 30 settings.connection_timeout;
  banner =
      if equal settings.banner [] then codes "ftpserver - golang FTP server" else settings.banner;
}

module _ {W : Type 0} (main : MainDriver W) (net : Network W) where
  abbrev ipv4_text : Bytes → Option Ip → Result Bytes
  ipv4_text host none = err (ip_validation (codes "invalid IPv4 passive IP " ++ quote host))
  ipv4_text host (some ip) = ok (net.ip_text ip)

  abbrev parsed_host : Bytes → Option Ip → Result Bytes
  parsed_host host none = err (ip_validation (codes "invalid passive IP " ++ quote host))
  parsed_host host (some ip) = ipv4_text host (to_4 ip)

  -- parseIPv4
  unfoldable pub parse_ipv4 : Bytes → Result Bytes
  parse_ipv4 host = parsed_host host (net.parse_ip host)

  abbrev with_host : Settings → Result Bytes → Result Settings
  with_host settings (err e) = err e
  with_host settings (ok host) = ok (with_defaults (record settings { public_host = host }))

  abbrev load_public_host : Bool → Settings → Result Settings
  load_public_host true settings = ok (with_defaults settings)
  load_public_host false settings = with_host settings (parse_ipv4 settings.public_host)

  abbrev loaded : Option Settings × Option Error → Result Settings
  loaded (_, some e) = err (driver_error (codes "couldn't load settings") e)
  loaded (none, none) = err (bare_driver_error (codes "couldn't load settings"))
  loaded (some settings, none) = load_public_host (equal settings.public_host []) settings

  abbrev store_settings : FtpServer → Result Settings → Option Error × FtpServer
  store_settings server (err e) = (some e, server)
  store_settings server (ok settings) = (none, record server { server_settings = some settings })

  -- loadSettings
  unfoldable pub load_settings : FtpServer → W → (Option Error × FtpServer) × W
  load_settings server w =
      let (r, w') = main.get_settings w in (store_settings server (loaded r), w')

  abbrev tls_listener : ℕ → Bool × Option Error → Result ServerListener
  tls_listener socket (_, some e) = err (driver_error (codes "cannot get tls config") e)
  tls_listener socket (false, none) = err (bare_driver_error (codes "cannot get tls config"))
  tls_listener socket (true, none) = ok (record { socket = socket; implicit_tls = true })

  abbrev listener_from : Bool → Result ℕ → W → Result ServerListener × W
  listener_from implicit (err e) w = (err (network_error (codes "cannot listen on main port") e), w)
  listener_from false (ok socket) w = (ok (record { socket = socket; implicit_tls = false }), w)
  listener_from true (ok socket) w =
      let (config, w') = main.get_tls_config w in (tls_listener socket config, w')

  -- createListener
  unfoldable pub create_listener : Settings → W → Result ServerListener × W
  create_listener settings w =
      let (r, w') = net.listen settings.listen_addr w in
      listener_from (is_implicit settings.tls_required) r w'

  abbrev take_listener : FtpServer → Result ServerListener × W → (Option Error × FtpServer) × W
  take_listener server (err e, w) =
      ((some (wrapped (codes "could not create listener") e), server), w)
  take_listener server (ok l, w) = ((none, record server { server_listener = some l }), w)

  abbrev listen_on : FtpServer → Settings → Option ℕ → W → (Option Error × FtpServer) × W
  listen_on server settings (some socket) w = (
    (
      none,
      record server { server_listener = some (record { socket = socket; implicit_tls = false }) },
    ),
    w,
  )
  listen_on server settings none w = take_listener server (create_listener settings w)

  abbrev listen_with : FtpServer → Option Settings → W → (Option Error × FtpServer) × W
  listen_with server none w = ((none, server), w)
  listen_with server (some settings) w = listen_on server settings settings.settings_listener w

  abbrev listen_loaded : (Option Error × FtpServer) × W → (Option Error × FtpServer) × W
  listen_loaded ((some e, server), w) =
      ((some (wrapped (codes "could not load settings") e), server), w)
  listen_loaded ((none, server), w) = listen_with server server.server_settings w

  -- Listen
  unfoldable pub listen_server : FtpServer → W → (Option Error × FtpServer) × W
  unfolding load_settings create_listener
  listen_server server w = listen_loaded (load_settings server w)

  abbrev stopped : Option Error → Option Error
  stopped none = none
  stopped (some e) = some (network_error (codes "couln't close listener") e)

  abbrev stop_listener : Option ServerListener → W → Option Error × W
  stop_listener none w = (some (sentinel not_listening), w)
  stop_listener (some l) w = let (e, w') = net.close_listener l.socket w in (stopped e, w')

  -- Stop
  unfoldable pub stop : FtpServer → W → Option Error × W
  stop server w = stop_listener server.server_listener w

-- An error of Accept, as handleAcceptError looks at it: what a *net.OpError in its chain says, and
-- whether a net.Error in its chain is temporary.
pub record AcceptError : Type 0 where
  pub op_error : Option Bytes
  pub temporary : Bool
  pub accept_cause : Error

abbrev pub is_closed : Option Bytes → Bool
is_closed none = false
is_closed (some text) = equal text (codes "use of closed network connection")

-- 5 ms and 1 s, in nanoseconds
abbrev pub first_delay : ℕ
first_delay = 5000000

abbrev pub max_delay : ℕ
max_delay = 1000000000

-- The delay after one more temporary error.
unfoldable pub next_delay : ℕ → ℕ
next_delay delay =
    let doubled = if delay == 0 then first_delay else delay * 2 in
    if ltb max_delay doubled then max_delay else doubled

-- Whether Serve stops, with which error, and the delay that was slept.
pub data AcceptAnswer : Type 0 where
  stops : Option Error → AcceptAnswer
  retries : ℕ → AcceptAnswer

abbrev accept_answer : Bool → Bool → Error → ℕ → AcceptAnswer
accept_answer true temporary e delay = stops none
accept_answer false true e delay = retries (next_delay delay)
accept_answer false false e delay = stops (some (network_error (codes "listener accept error") e))

abbrev without_listener : Bool → FtpServer → FtpServer
without_listener true server = record server { server_listener = none }
without_listener false server = server

unfoldable pub handle_accept_error : AcceptError → ℕ → FtpServer → AcceptAnswer × FtpServer
unfolding equal
handle_accept_error e delay server = (
  accept_answer (is_closed e.op_error) e.temporary e.accept_cause delay,
  without_listener (is_closed e.op_error) server,
)

-- clientArrival; the counter is a uint32. `now` is the time, and `is_tls` says whether the
-- connection is a *tls.Conn.
unfoldable pub client_arrival : Settings → ℕ → Bool → FtpServer → Client × FtpServer
unfolding new_client_handler
client_arrival settings now is_tls server =
    let id = (server.client_counter + 1) % 2 ^ 32 in
    (
      new_client_handler id settings.default_transfer_type now is_tls,
      record server { client_counter = id },
    )

pub data Accepted : Type 0 where
  connection : (now : ℕ) (is_tls : Bool) → Accepted
  refused : AcceptError → Accepted

-- What Serve did with the results of Accept that it was given: the clients that it started, the
-- delays that it slept, and the error that it returned if it did.
pub record Served : Type 0 where
  pub clients : List Client
  pub delays : List ℕ
  pub returned : Option (Option Error)
  pub server_after : FtpServer

abbrev with_client : Client → Served → Served
with_client c r = record r { clients = c ∷ r.clients }

abbrev with_delay : ℕ → Served → Served
with_delay delay r = record r { delays = delay ∷ r.delays }

-- Serve
unfoldable pub serve : Settings → ℕ → List Accepted → FtpServer → Served
unfolding client_arrival
serve settings delay [] server = record {
  clients = [];
  delays = [];
  returned = none;
  server_after = server;
}
serve settings delay (connection now is_tls ∷ accepts) server =
    let arrived = client_arrival settings now is_tls server in
    with_client arrived.0 (serve settings 0 accepts arrived.1)
serve settings delay (refused e ∷ accepts) server =
    let (answer, server') = handle_accept_error e delay server in
    elim answer [
      | stops r ↦ record { clients = []; delays = []; returned = some r; server_after = server' }
      | retries delay' ↦ with_delay delay' (serve settings delay' accepts server')
    ]
