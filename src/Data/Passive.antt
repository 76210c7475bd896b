-- ===== src/Data/Passive.antt =====
-- handlePASV, findListenerWithinPortRange, getCurrentIP and handlePassivePASV of transfer_pasv.go.
use ftpserverlib.Codes.{status_entering_epsv, status_entering_pasv, status_service_not_available}
use ftpserverlib.Prelude.{
  ℕ, zero, suc, ◌+◌, ◌-◌, ◌*◌, ◌/◌, Bool, true, false, ◌||◌, List, [], ◌∷◌, ◌++◌, Option, none,
  some, ltb, if◌then◌else◌,
}
use ftpserverlib.Text.{Bytes, codes, equal, split}
use ftpserverlib.Text.Decimal.{decimal}
use ftpserverlib.Text.Quote.{quote}
use ftpserverlib.Errors.{
  Error, sentinel, no_available_listening_port, ip_validation, wrapped, network_error, error_string,
}
use ftpserverlib.Session.{
  Result, ok, err, PortRange, passive_channel, TcpAddr, Listener, Env, Transfer, passive, M, pure,
  close_handler, or_nil, panics, gets, call, callback, modify, reply, has_tls_for_transfers,
  is_implicit, ◌>>=◌, ◌>>◌,
}

-- nbAttempts: End - Start, but at least 10 and at most 1000
unfoldable pub attempts_of : PortRange → ℕ
attempts_of r =
    if ltb (r.end - r.start) 10
    then 10
    else if ltb 1000 (r.end - r.start)
    then 1000
    else r.end - r.start

-- "entering passive mode": the address and the two bytes of the port
unfoldable pub pasv_text : List Bytes → ℕ → Bytes
pasv_text (q1 ∷ q2 ∷ q3 ∷ q4 ∷ _) port =
    let byte1 = port / 256 in
    let byte2 = port - byte1 * 256 in
    codes "Entering Passive Mode ("
    ++ q1
    ++ codes ","
    ++ q2
    ++ codes ","
    ++ q3
    ++ codes ","
    ++ q4
    ++ codes ","
    ++ decimal byte1
    ++ codes ","
    ++ decimal byte2
    ++ codes ")"
pasv_text _ port = []

abbrev quads_of : Bytes → List Bytes → Result (List Bytes)
quads_of text (q1 ∷ q2 ∷ q3 ∷ q4 ∷ []) = ok (q1 ∷ q2 ∷ q3 ∷ q4 ∷ [])
quads_of text _ = err (ip_validation (codes "invalid passive IP " ++ quote text))

abbrev pub resolved_quads : Result Bytes → Result (List Bytes)
resolved_quads (ok text) = quads_of text (split b'.' text)
resolved_quads (err e) = err (wrapped (codes "couldn't fetch public IP") e)

abbrev first : List Bytes → Bytes
first [] = []
first (x ∷ _) = x

module _ {W : Type 0} (env : Env W) where
  abbrev pub resolver_ip : Bool → M W (Result Bytes)
  resolver_ip true = callback env env.main.public_ip_resolver
  resolver_ip false = pure (ok (first (split b':' env.net.local_addr)))

  abbrev pub current_ip_from : Bool → M W (Result (List Bytes))
  current_ip_from false = pure (resolved_quads (ok env.settings.public_host))
  current_ip_from true = do r ← resolver_ip env.main.has_public_ip_resolver; pure (resolved_quads r)

  -- getCurrentIP
  unfoldable pub get_current_ip : M W (Result (List Bytes))
  get_current_ip = current_ip_from (equal env.settings.public_host [])

  -- One attempt; `next` makes the others.
  abbrev listened : M W (Result Listener) → Result Listener → M W (Result Listener)
  listened next (ok listener) = pure (ok listener)
  listened next (err e) = next

  abbrev listen_at : ℕ → M W (Result Listener) → Result TcpAddr → M W (Result Listener)
  listen_at port next (err e) =
      pure (err (network_error (codes "could not resolve port " ++ decimal port) e))
  listen_at port next (ok addr) = do r ← call (env.net.listen_tcp (some addr)); listened next r

  unfoldable pub try_ports : ℕ → PortRange → M W (Result Listener)
  try_ports zero range = pure (err (sentinel no_available_listening_port))
  try_ports (suc n) range = do
    k ← call (env.net.intn (range.end - range.start + 1))
    r ← call (env.net.resolve_tcp_addr (codes "0.0.0.0:" ++ decimal (range.start + k)))
    listen_at (range.start + k) (try_ports n range) r

  -- rand.Intn panics where its argument is not positive.
  abbrev pub ports_from : Bool → PortRange → M W (Result Listener)
  ports_from true range = panics (codes "invalid argument to Intn")
  ports_from false range = try_ports (attempts_of range) range

  unfoldable pub find_listener_within_port_range : PortRange → M W (Result Listener)
  unfolding attempts_of
  find_listener_within_port_range range = ports_from (ltb range.end range.start) range

  abbrev pub listen_from : Option PortRange → Result TcpAddr → M W (Result Listener)
  listen_from (some range) addr = find_listener_within_port_range range
  listen_from none addr = call (env.net.listen_tcp (or_nil addr))

  abbrev pub listen : Option PortRange → M W (Result Listener)
  listen range = do addr ← call (env.net.resolve_tcp_addr (codes ":0")); listen_from range addr

  abbrev close_pending : Option Transfer → M W (Unit {0})
  close_pending none = pure tt
  close_pending (some t) = do call (close_handler env t); pure tt

  -- the end of handlePASV, once the client knows the port
  abbrev pub install : Transfer → M W (Option Error)
  install t = do
    pending ← gets (λ c. c.transfer)
    close_pending pending
    modify (λ c. record c { transfer = some t; last_data_channel = some passive_channel })
    pure none

  abbrev pub cannot_listen : Error → M W (Option Error)
  cannot_listen e = do
    reply status_service_not_available
        (codes "Could not listen for passive connection: " ++ error_string e)
    pure none

  abbrev pub passive_pasv : Transfer → ℕ → Result (List Bytes) → M W (Option Error)
  passive_pasv t port (err e) = cannot_listen e
  passive_pasv t port (ok quads) = do reply status_entering_pasv (pasv_text quads port); install t

  abbrev pub announce : Bool → Transfer → ℕ → M W (Option Error)
  announce true t port = do r ← get_current_ip; passive_pasv t port r
  announce false t port = do
    reply status_entering_epsv
        (codes "Entering Extended Passive Mode (|||" ++ decimal port ++ codes "|)")
    install t

  abbrev pub announced : Listener → ℕ → Bool → M W (Option Error)
  announced tcp listener tls = do
    pasv ← gets (λ c. equal c.command (codes "PASV"))
    announce pasv (passive tcp.listener_id listener tcp.listener_port tls none []) tcp.listener_port

  abbrev pub tls_listener : Listener → ℕ → Bool × Option Error → M W (Option Error)
  tls_listener tcp listener (_, none) = announced tcp listener true
  tls_listener tcp listener (_, some e) = do
    reply status_service_not_available (codes "Cannot get a TLS config: " ++ error_string e)
    pure none

  abbrev pub protect : Bool → Listener → ℕ → M W (Option Error)
  protect false tcp listener = announced tcp listener false
  protect true tcp listener = do r ← call env.main.get_tls_config; tls_listener tcp listener r

  abbrev pub wrapped_listener : Listener → Result ℕ → M W (Option Error)
  wrapped_listener tcp (err e) = cannot_listen e
  wrapped_listener tcp (ok listener) = do
    tls ← gets (λ c. has_tls_for_transfers env.settings c || is_implicit env.settings.tls_required)
    protect tls tcp listener

  abbrev pub wrap_listener : Bool → ℕ → M W (Result ℕ)
  wrap_listener false listener = pure (ok listener)
  wrap_listener true listener = call (env.main.wrap_passive_listener listener)

  abbrev pub listening : Result Listener → M W (Option Error)
  listening (err e) = cannot_listen e
  listening (ok tcp) = do
    r ← wrap_listener env.main.has_passive_wrapper tcp.listener_id
    wrapped_listener tcp r

  unfoldable pub handle_pasv : Bytes → M W (Option Error)
  handle_pasv _ = do r ← listen env.settings.passive_transfer_port_range; listening r
