-- ===== src/Server/Answer/Hash.antt =====
-- HASH and its kin, PASV and EPSV.
use ftpserverlib.Prelude.{
  ℕ, zero, suc, ◌+◌, ◌-◌, ◌++◌, ◌∷◌, [], Bool, true, false, List, Option, none, some, ◌≡◌, ◌≢◌,
  refl, arith, inl, inr, Option-cases,
}
use ftpserverlib.Prelude.Int.{ℤ}
use ftpserverlib.Text.{Bytes, codes}
use ftpserverlib.Text.Decimal.{decimal}
use ftpserverlib.Paths.{abs_path}
use ftpserverlib.Errors.{Error}
use ftpserverlib.Session.{
  ◌>>=◌, Transfer, Env, Session, Outcome-cases, Result, Result-cases, ok, err, FileInfo, panic,
  ClientDriver, HashAlgo, PortRange, Listener,
}
use ftpserverlib.Files.{
  read_only, unquote_space_separated_params, compute_hash_for_file, run_hasher, hash_range,
  hash_stat, hash_params, whole_or_part, handle_generic_hash, handle_hash,
}
use ftpserverlib.Data.{
  passive_pasv, announce, announced, tls_listener, protect, wrapped_listener, wrap_listener,
  attempts_of, get_current_ip, try_ports, ports_from, find_listener_within_port_range, listen,
  listening, handle_pasv,
}
use ftpserverlib.Server.Answer.{Answers}
use ftpserverlib.Server.Answer.Parts.{get_file_handle-log}

module _ {W : Type 0} (env : Env W) where
  compute_hash-log :
      (path : Bytes) (algo : HashAlgo) (start end : ℤ) (s : Session W)
      → (compute_hash_for_file env path algo start end s).1.log ≡ s.log
  unfolding compute_hash_for_file
  compute_hash-log path algo start end s =
      let opened = get_file_handle-log env path read_only start s in ground arith

  run_hasher-log :
      (own : Bool) (d : ClientDriver W) (path : Bytes) (algo : HashAlgo) (start end : ℤ)
      (s : Session W)
      → (run_hasher env own d path algo start end s).1.log ≡ s.log
  run_hasher-log true d path algo start end s = refl
  run_hasher-log false d path algo start end s = compute_hash-log path algo start end s

  hash_range-Answers :
      (custom : Bool) (algo : HashAlgo) (file : Bytes) (r : Result (ℤ × ℤ))
      → Answers (hash_range env custom algo file r)
  hash_range-Answers custom algo file (err e) = record { at = λ s. ground arith }
  hash_range-Answers custom algo file (ok (start, end)) = record {
    at = λ s. elim (Option-cases s.client.driver) [
      | inl no_driver ↦ ground arith
      | inr (n, is_driver) ↦
          let dr = env.main.driver n in
          let path = abs_path s.client.path file in
          let hashed = run_hasher-log dr.has_hasher dr path algo start end s in
          elim (Outcome-cases (run_hasher env dr.has_hasher dr path algo start end s).0) [
            | inr (text, is_panic) ↦ ground arith
            | inl (r, is_done) ↦ ground arith
          ]
    ];
  }

  hash_stat-Answers :
      (custom : Bool) (algo : HashAlgo) (param file : Bytes) (args : List Bytes)
      (r : Result FileInfo)
      → Answers (hash_stat env custom algo param file args r)
  hash_stat-Answers custom algo param file args (err e) = record { at = λ s. ground arith }
  hash_stat-Answers custom algo param file args (ok info) = record {
    at = λ s.
        let ranged =
          (hash_range-Answers custom algo file (whole_or_part env custom args info.size)).at s in
        ground arith;
  }

  hash_params-Answers :
      (custom : Bool) (algo : HashAlgo) (param : Bytes) (names : Option (List Bytes))
      → Answers (hash_params env custom algo param names)
  hash_params-Answers custom algo param none = record { at = λ s. ground arith }
  hash_params-Answers custom algo param (some []) = record { at = λ s. ground arith }
  hash_params-Answers custom algo param (some (file ∷ rest)) = record {
    at = λ s. elim (Option-cases s.client.driver) [
      | inl no_driver ↦ ground arith
      | inr (n, is_driver) ↦
          let (r, w) = (env.main.driver n).stat file s.world in
          let found =
            (hash_stat-Answers custom algo param file (file ∷ rest) r).at
              (record s { world = w }) in
          ground arith
    ];
  }

  pub handle_generic_hash-Answers :
      (param : Bytes) (algo : HashAlgo) (custom : Bool)
      → Answers (handle_generic_hash env param algo custom)
  unfolding handle_generic_hash
  handle_generic_hash-Answers param algo custom = record {
    at = λ s.
        let hashed =
          (hash_params-Answers custom algo param (unquote_space_separated_params param)).at s in
        ground arith;
  }

  pub handle_hash-Answers : (param : Bytes) → Answers (handle_hash env param)
  unfolding handle_hash
  handle_hash-Answers param = record {
    at = λ s. (handle_generic_hash-Answers param s.client.selected_hash_algo false).at s;
  }

  try_ports-log :
      (n : ℕ) (range : PortRange) (s : Session W)
      → ((try_ports env n range s).1.log ≡ s.log)
        × ((text : Bytes) → (try_ports env n range s).0 ≢ panic text)
  unfolding try_ports
  try_ports-log zero range s = (ground arith, λ text. ground arith)
  try_ports-log (suc n) range s =
      let (k, w) = env.net.intn (range.end - range.start + 1) s.world in
      let (r, w') = env.net.resolve_tcp_addr (codes "0.0.0.0:" ++ decimal (range.start + k)) w in
      elim (Result-cases r) [
        | inr (e, is_err) ↦ (ground arith, λ text. ground arith)
        | inl (addr, is_ok) ↦
            let s' = record s { world = (env.net.listen_tcp (some addr) w').1 } in
            let (later, ends) = try_ports-log n range s' in
            (ground arith, λ text. let ends' = ends text in ground arith)
      ]

  ports_from-log :
      (below : Bool) (range : PortRange) (s : Session W)
      → (ports_from env below range s).1.log ≡ s.log
  ports_from-log true range s = refl
  ports_from-log false range s = (try_ports-log (attempts_of range) range s).0

  listen-log : (range : Option PortRange) (s : Session W) → (listen env range s).1.log ≡ s.log
  unfolding find_listener_within_port_range
  listen-log none s = refl
  listen-log (some range) s =
      ports_from-log _ range
        (record s { world = (env.net.resolve_tcp_addr (codes ":0") s.world).1 })

  get_current_ip-log :
      (s : Session W)
      → ((get_current_ip env s).1.log ≡ s.log)
        × ((text : Bytes) → (get_current_ip env s).0 ≢ panic text)
  unfolding get_current_ip
  get_current_ip-log s = (ground arith, λ text. ground arith)

  passive_pasv-Answers :
      (t : Transfer) (port : ℕ) (r : Result (List Bytes)) → Answers (passive_pasv env t port r)
  passive_pasv-Answers t port r = record { at = λ s. ground arith }

  announce-Answers : (pasv : Bool) (t : Transfer) (port : ℕ) → Answers (announce env pasv t port)
  announce-Answers false t port = record { at = λ s. ground arith }
  announce-Answers true t port = record {
    at = λ s.
        let (same, ends) = get_current_ip-log s in
        let (r, s1) = get_current_ip env s in
        elim (Outcome-cases r) [
          | inr (text, is_panic) ↦ absurd (ends text is_panic)
          | inl (a, is_done) ↦ let later = (passive_pasv-Answers t port a).at s1 in ground arith
        ];
  }

  announced-Answers :
      (tcp : Listener) (listener : ℕ) (tls : Bool) → Answers (announced env tcp listener tls)
  announced-Answers tcp listener tls = record { at = λ s. (announce-Answers _ _ _).at s }

  tls_listener-Answers :
      (tcp : Listener) (listener : ℕ) (r : Bool × Option Error)
      → Answers (tls_listener env tcp listener r)
  tls_listener-Answers tcp listener (config, none) = announced-Answers tcp listener true
  tls_listener-Answers tcp listener (config, some e) = record { at = λ s. ground arith }

  protect-Answers :
      (tls : Bool) (tcp : Listener) (listener : ℕ) → Answers (protect env tls tcp listener)
  protect-Answers false tcp listener = announced-Answers tcp listener false
  protect-Answers true tcp listener = record {
    at = λ s. (tls_listener-Answers tcp listener (env.main.get_tls_config s.world).0).at _;
  }

  wrapped_listener-Answers : (tcp : Listener) (r : Result ℕ) → Answers (wrapped_listener env tcp r)
  wrapped_listener-Answers tcp (err e) = record { at = λ s. ground arith }
  wrapped_listener-Answers tcp (ok listener) = record {
    at = λ s. (protect-Answers _ tcp listener).at s;
  }

  wrapping-Answers :
      (own : Bool) (tcp : Listener)
      → Answers (wrap_listener env own tcp.listener_id >>= wrapped_listener env tcp)
  wrapping-Answers false tcp = record {
    at = λ s. (wrapped_listener-Answers tcp (ok tcp.listener_id)).at s;
  }
  wrapping-Answers true tcp = record {
    at = λ s.
        let (r, w) = env.main.wrap_passive_listener tcp.listener_id s.world in
        (wrapped_listener-Answers tcp r).at (record s { world = w });
  }

  listening-Answers : (r : Result Listener) → Answers (listening env r)
  listening-Answers (err e) = record { at = λ s. ground arith }
  listening-Answers (ok tcp) = wrapping-Answers env.main.has_passive_wrapper tcp

  pub handle_pasv-Answers : (param : Bytes) → Answers (handle_pasv env param)
  unfolding handle_pasv
  handle_pasv-Answers param = record {
    at = λ s.
        let range = env.settings.passive_transfer_port_range in
        let listened = listen-log range s in
        let (r, s1) = listen env range s in
        elim (Outcome-cases r) [
          | inr (text, is_panic) ↦ ground arith
          | inl (a, is_done) ↦ let later = (listening-Answers a).at s1 in ground arith
        ];
  }
