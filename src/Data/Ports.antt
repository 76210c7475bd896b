-- ===== src/Data/Ports.antt =====
-- The ports that PASV tries.
use ftpserverlib.Prelude.{ℕ, zero, suc, ◌+◌, ◌-◌, ◌≤◌, ◌<◌, ◌++◌, ◌≡◌, some, inl, inr, arith}
use ftpserverlib.Text.{codes}
use ftpserverlib.Text.Decimal.{decimal}
use ftpserverlib.Session.{
  Env, Network, Session, done, Result-cases, ok, PortRange, Listener, TcpAddr,
}
use ftpserverlib.Data.Passive.{attempts_of, try_ports, find_listener_within_port_range}

-- What the packages net and math/rand document: Intn(n) is below n, a resolved address keeps the
-- port of its text, and a listener listens on the port that it was asked for.
pub record IsNetwork {W : Type 0} (net : Network W) : Type 0 where
  pub intn_below : (n : ℕ) (w : W) → 0 < n → (net.intn n w).0 < n
  pub resolved_port :
      (p : ℕ) (w : W) (addr : TcpAddr)
      → p < 65536
      → (net.resolve_tcp_addr (codes "0.0.0.0:" ++ decimal p) w).0 ≡ ok addr
      → addr.port ≡ p
  pub listened_port :
      (addr : TcpAddr) (w : W) (l : Listener)
      → 0 < addr.port
      → (net.listen_tcp (some addr) w).0 ≡ ok l
      → l.listener_port ≡ addr.port

module _ {W : Type 0} (env : Env W) (net_laws : IsNetwork env.net) where
  try_ports-within :
      (n : ℕ) (range : PortRange) (s s' : Session W) (l : Listener)
      → 0 < range.start
      → range.start ≤ range.end
      → range.end < 65536
      → try_ports env n range s ≡ (done (ok l), s')
      → (range.start ≤ l.listener_port) × (l.listener_port ≤ range.end)
  unfolding try_ports
  try_ports-within zero range s s' l p o b h = ground arith
  try_ports-within (suc n) range s s' l p o b h =
      let (k, w) = env.net.intn (range.end - range.start + 1) s.world in
      let (r, w') = env.net.resolve_tcp_addr (codes "0.0.0.0:" ++ decimal (range.start + k)) w in
      let below = net_laws.intn_below (range.end - range.start + 1) s.world (omega arith) in
      elim (Result-cases r) [
        | inr (e, failed) ↦ ground arith
        | inl (addr, resolved) ↦
            let port =
              net_laws.resolved_port (range.start + k) w addr (omega (arith, below)) resolved in
            let (r', w'') = env.net.listen_tcp (some addr) w' in
            elim (Result-cases r') [
              | inl (l', listens) ↦
                  let same =
                    net_laws.listened_port addr w' l' (omega (arith, port, below)) listens in
                  ground arith
              | inr (e, failed) ↦
                  try_ports-within n range (record s { world = w'' }) s' l p o b (ground arith)
            ]
      ]

  -- With a range of ports above 0 and below 65536, a listener that PASV gets from it listens on a port of the
  -- range, at its ends too, if the network does what its packages document.
  pub find_listener-within :
      (range : PortRange) (s s' : Session W) (l : Listener)
      → 0 < range.start
      → range.start ≤ range.end
      → range.end < 65536
      → find_listener_within_port_range env range s ≡ (done (ok l), s')
      → (range.start ≤ l.listener_port) × (l.listener_port ≤ range.end)
  unfolding find_listener_within_port_range
  find_listener-within range s s' l p o b h =
      try_ports-within (attempts_of range) range s s' l p o b (ground arith)
