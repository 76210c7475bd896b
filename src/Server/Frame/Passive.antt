-- ===== src/Server/Frame/Passive.antt =====
-- PASV and EPSV, whose resolver of the public address is given the ClientContext.
use ftpserverlib.Prelude.{
  ℕ, zero, suc, ◌+◌, ◌-◌, ◌++◌, Bool, true, false, List, Option, none, some, arith, inl, inr,
}
use ftpserverlib.Text.{Bytes, codes, equal}
use ftpserverlib.Text.Decimal.{decimal}
use ftpserverlib.Errors.{Error}
use ftpserverlib.Session.{pure, Env, Result, Result-cases, ok, err, PortRange, Listener, Transfer}
use ftpserverlib.Session.Leaves.{Same, Leaves, bind-Leaves}
use ftpserverlib.Session.Tame.{IsTame, Framed, Framed-IsFrame, Same-Framed, callback-Framed}
use ftpserverlib.Data.{
  attempts_of, current_ip_from, resolved_quads, get_current_ip, resolver_ip, try_ports, ports_from,
  find_listener_within_port_range, listen, passive_pasv, announce, announced, tls_listener, protect,
  wrapped_listener, wrap_listener, listening, handle_pasv,
}

module _ {W : Type 0} (env : Env W) where
  try_ports-Same : (n : ℕ) (range : PortRange) → Leaves Same (try_ports env n range)
  unfolding try_ports
  try_ports-Same zero range = record { at = λ s. ground arith }
  try_ports-Same (suc n) range = record {
    at = λ s.
        let (k, w) = env.net.intn (range.end - range.start + 1) s.world in
        let (r, w') = env.net.resolve_tcp_addr (codes "0.0.0.0:" ++ decimal (range.start + k)) w in
        elim (Result-cases r) [
          | inr (e, is_err) ↦ ground arith
          | inl (addr, is_ok) ↦
              let later =
                (try_ports-Same n range).at
                  (record s { world = (env.net.listen_tcp (some addr) w').1 }) in
              ground arith
        ];
  }

  ports_from-Same : (below : Bool) (range : PortRange) → Leaves Same (ports_from env below range)
  ports_from-Same true range = record { at = λ s. ground arith }
  ports_from-Same false range = try_ports-Same (attempts_of range) range

  listen-Same : (range : Option PortRange) → Leaves Same (listen env range)
  unfolding find_listener_within_port_range
  listen-Same none = record { at = λ s. ground arith }
  listen-Same (some range) = record {
    at = λ s.
        (ports_from-Same _ range).at
          (record s { world = (env.net.resolve_tcp_addr (codes ":0") s.world).1 });
  }

  passive_pasv-Same :
      (t : Transfer) (port : ℕ) (r : Result (List Bytes)) → Leaves Same (passive_pasv env t port r)
  passive_pasv-Same t port r = record { at = λ s. ground arith }

module _ {W : Type 0} (env : Env W) (P : Bytes → Type 0) (tame : IsTame P env) where
  resolver_ip-Framed : (own : Bool) → Leaves (Framed P) (resolver_ip env own)
  resolver_ip-Framed true =
      callback-Framed P env env.main.public_ip_resolver tame.public_ip_resolver_tame
  resolver_ip-Framed false = Same-Framed P _ (record { at = λ s. ground arith })

  current_ip_from-Framed : (unset : Bool) → Leaves (Framed P) (current_ip_from env unset)
  current_ip_from-Framed false = Same-Framed P _ (record { at = λ s. ground arith })
  current_ip_from-Framed true =
      bind-Leaves (Framed P) (Framed-IsFrame P) (resolver_ip env env.main.has_public_ip_resolver)
        (λ r. pure (resolved_quads r)) (resolver_ip-Framed env.main.has_public_ip_resolver)
        (λ r. Same-Framed P _ (record { at = λ s. ground arith }))

  announce-Framed :
      (pasv : Bool) (t : Transfer) (port : ℕ) → Leaves (Framed P) (announce env pasv t port)
  unfolding get_current_ip
  announce-Framed true t port =
      bind-Leaves (Framed P) (Framed-IsFrame P) (get_current_ip env) (passive_pasv env t port)
        (current_ip_from-Framed _) (λ r. Same-Framed P _ (passive_pasv-Same env t port r))
  announce-Framed false t port = Same-Framed P _ (record { at = λ s. ground arith })

  announced-Framed :
      (tcp : Listener) (listener : ℕ) (tls : Bool)
      → Leaves (Framed P) (announced env tcp listener tls)
  announced-Framed tcp listener tls = record {
    at = λ s. (announce-Framed (equal s.client.command (codes "PASV")) _ _).at s;
  }

  tls_listener-Framed :
      (tcp : Listener) (listener : ℕ) (r : Bool × Option Error)
      → Leaves (Framed P) (tls_listener env tcp listener r)
  tls_listener-Framed tcp listener (config, none) = announced-Framed tcp listener true
  tls_listener-Framed tcp listener (config, some e) =
      Same-Framed P _ (record { at = λ s. ground arith })

  protect-Framed :
      (tls : Bool) (tcp : Listener) (listener : ℕ)
      → Leaves (Framed P) (protect env tls tcp listener)
  protect-Framed false tcp listener = announced-Framed tcp listener false
  protect-Framed true tcp listener = record {
    at = λ s. (tls_listener-Framed tcp listener (env.main.get_tls_config s.world).0).at _;
  }

  wrapped_listener-Framed :
      (tcp : Listener) (r : Result ℕ) → Leaves (Framed P) (wrapped_listener env tcp r)
  wrapped_listener-Framed tcp (err e) = Same-Framed P _ (record { at = λ s. ground arith })
  wrapped_listener-Framed tcp (ok listener) = record {
    at = λ s. (protect-Framed _ tcp listener).at s;
  }

  listening-Framed : (r : Result Listener) → Leaves (Framed P) (listening env r)
  listening-Framed (err e) = Same-Framed P _ (record { at = λ s. ground arith })
  listening-Framed (ok tcp) =
      bind-Leaves (Framed P) (Framed-IsFrame P)
        (wrap_listener env env.main.has_passive_wrapper tcp.listener_id) (wrapped_listener env tcp)
        (Same-Framed P _ (record { at = λ s. ground arith })) (wrapped_listener-Framed tcp)

  pub handle_pasv-Framed : (param : Bytes) → Leaves (Framed P) (handle_pasv env param)
  unfolding handle_pasv
  handle_pasv-Framed param =
      bind-Leaves (Framed P) (Framed-IsFrame P)
        (listen env env.settings.passive_transfer_port_range) (listening env)
        (Same-Framed P _ (listen-Same env env.settings.passive_transfer_port_range))
        listening-Framed
