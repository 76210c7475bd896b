-- ===== src/Tests/Sessions.antt =====
-- Logins, transfers and data connections.
use ftpserverlib.Prelude.{
  ℕ, ◌+◌, ◌≤◌, true, false, [], ◌∷◌, Option, none, some, ◌≡◌, ◌≢◌, refl, ◌⊎◌, arith,
}
use ftpserverlib.Prelude.Int.{pos}
use ftpserverlib.Text.{codes, equal, cut, split, join}
use ftpserverlib.Text.Decimal.{decimal, digits, parse_int, parse_int-decimal, read_digits}
use ftpserverlib.Errors.{Error, ip_validation}
use ftpserverlib.Paths.Clean.{IsCleanAbs}
use ftpserverlib.Session.{
  Session, done, ok, err, message, reply_codes, passive, active_channel, ip_match_required,
  PortRange, Listener, new_client_handler, Ip, is_tls_required, has_tls_for_transfers,
}
use ftpserverlib.Session.{close_handler, apply_context, asks_close}
use ftpserverlib.Transfer.{
  ip_equal, get_ip_from_remote_addr, check_data_connection_requirement, open_transfer,
  transfer_open, transfer_close, close_transfer,
}
use ftpserverlib.Transfer.Open.{
  PeerAllowed, transfer_open-PeerAllowed, transfer_open-protected, transfer_open-retry_unchecked,
}
use ftpserverlib.Transfer.Replies.{
  Run, before, opened, finished, refused, Reach, here, next, opens, closes, finals,
  transfer_replied_once,
}
use ftpserverlib.Auth.{handle_user, handle_pass}
use ftpserverlib.Auth.Laws.{handle_user-requires_tls, handle_pass-login}
use ftpserverlib.Files.Rename.{handle_rnto-renames}
use ftpserverlib.Files.{handle_rnfr, handle_rnto, transfer_file}
use ftpserverlib.Files.Rest.{transfer_file-ctx_rest}
use ftpserverlib.Dirs.{handle_cwd, handle_cdup}
use ftpserverlib.Dirs.Cwd.{handle_cwd-IsCleanAbs}
use ftpserverlib.Data.{
  handle_port, find_listener_within_port_range, attempts_of, try_ports, parse_port_addr,
  matches_remote_addr,
}
use ftpserverlib.Data.Pending.{handle_port-checked, handle_port-ignores_pending}
use ftpserverlib.Data.Ports.{IsNetwork, find_listener-within}
use ftpserverlib.Paths.{abs_path, is_abs, clean, clean_elements, push, go_up, join_path}
use ftpserverlib.Tests.World.{
  file_info, env, tls_env, stolen_env, client_ip, other_ip, pending, fresh_session, user_session,
  pasv_session,
}

handle_user-requires_tls_example :
    let s' = (handle_user tls_env (codes "u") fresh_session).1 in
    (s'.client.user ≡ fresh_session.client.user)
    × (s'.client.driver ≡ fresh_session.client.driver)
    × (s'.client.closed ≡ true)
    × ((reply_codes s'.log ≡ 421 ∷ reply_codes fresh_session.log)
        ⊎ (reply_codes s'.log ≡ 530 ∷ reply_codes fresh_session.log))
unfolding new_client_handler
handle_user-requires_tls_example =
    handle_user-requires_tls tls_env (codes "u") fresh_session refl refl

handle_pass-login_example :
    let ((given, e), calls, w) =
      env.main.auth_user user_session.client.user (codes "p") user_session.world in
    let s' = (handle_pass env (codes "p") user_session).1 in
    let (c, w1) = apply_context env calls user_session.client w in
    let later = (env.main.post_auth_message user_session.client.user e w1).1 in
    (s'.client.driver ≡ given)
    × ((driver : ℕ)
        → given ≡ some driver
        → e ≡ none
        → (reply_codes s'.log ≡ 230 ∷ reply_codes user_session.log)
          × (asks_close calls ≡ false
              → asks_close later ≡ false
              → s'.client.closed ≡ user_session.client.closed))
    × ((given ≡ none) ⊎ (e ≢ none)
        → (s'.client.closed ≡ true) × (reply_codes s'.log ≡ 530 ∷ reply_codes user_session.log))
handle_pass-login_example = handle_pass-login env (codes "p") user_session

-- The session in which the transfer of a PASV is open.
abbrev open_session : Session ℕ
open_session = record pasv_session {
  client = record (pasv_session.client) {
    transfer = some (passive 3 3 2000 false (some 5) (codes "RETR f"));
    is_transfer_open = true;
  };
  world = 1;
  log = message 150 (codes "Using transfer connection") ∷ [];
}

opens_f : transfer_open env (codes "RETR f") pasv_session ≡ (done (ok 5), open_session)
unfolding transfer_open open_transfer check_data_connection_requirement get_ip_from_remote_addr
    ip_equal equal new_client_handler
opens_f = refl

transfer_open-protected_example :
    (is_tls_required env.settings pasv_session.client ≡ true
      → has_tls_for_transfers env.settings pasv_session.client ≡ true)
    × (open_session.client.is_transfer_open ≡ true)
    × (open_session.client.transfer ≢ none)
    × (open_session.log ≡ message 150 (codes "Using transfer connection") ∷ pasv_session.log)
transfer_open-protected_example =
    transfer_open-protected env (codes "RETR f") 5 pasv_session open_session opens_f

transfer_open-PeerAllowed_example :
    ◌≡◌ {A = ℕ} 5 5
    × ((ip : Ip) × (get_ip_from_remote_addr env (some (codes "10.0.0.6:40000")) ≡ ok ip)
        × PeerAllowed env ip_match_required ip)
transfer_open-PeerAllowed_example =
    transfer_open-PeerAllowed env (codes "RETR f") [] 3 3 2000 5 false pasv_session open_session
      (record { conn_id = 5; conn_remote = some (codes "10.0.0.6:40000") }) 1 refl refl opens_f

transfer_open-retry_unchecked_example :
    ((e' : Error) × ((transfer_open stolen_env (codes "LIST") pasv_session).0 ≡ done (err e')))
    × ((transfer_open stolen_env
          (codes "LIST")
          (transfer_open stolen_env (codes "LIST") pasv_session).1).0
        ≡ done (ok 5))
unfolding check_data_connection_requirement get_ip_from_remote_addr ip_equal equal
    new_client_handler
transfer_open-retry_unchecked_example =
    transfer_open-retry_unchecked stolen_env (codes "LIST") (codes "LIST") pasv_session 3 3 2000
      false [] (record { conn_id = 5; conn_remote = some (codes "10.0.0.9:1") }) 1 other_ip
      (ip_validation (
        codes
          "data connection ip address 10.0.0.6 does not match control connection ip address 10.0.0.6"))
      refl refl refl refl refl

abbrev before_run : Run ℕ
before_run = record { phase = before; aborts = 0; session = pasv_session }

abbrev open_run : Run ℕ
open_run = record { phase = opened; aborts = 0; session = open_session }

abbrev after_run : Run ℕ
after_run = record {
  phase = finished;
  aborts = 0;
  session = (transfer_close env none open_session).1;
}

run_f : Reach env before_run after_run
unfolding transfer_close close_transfer close_handler new_client_handler
run_f =
    next (next here (opens (codes "RETR f") 5 refl refl refl opens_f))
      (closes none refl refl refl refl)

transfer_replied_once_example :
    (after_run.phase ≡ finished
      → finals after_run.session.log ≡ finals before_run.session.log + after_run.aborts + 1)
    × (after_run.phase ≡ refused
        → (finals before_run.session.log + after_run.aborts ≤ finals after_run.session.log)
          × (finals after_run.session.log ≤ finals before_run.session.log + after_run.aborts + 1))
unfolding new_client_handler
transfer_replied_once_example =
    transfer_replied_once env before_run after_run refl refl refl refl run_f

transfer_file-ctx_rest_example :
    ((transfer_file env true false (codes "f") (codes "STOR f") pasv_session).0 ≡ done tt)
    × ((transfer_file env true false (codes "f") (codes "STOR f") pasv_session).1.client.ctx_rest
        ≡ pos 0)
transfer_file-ctx_rest_example =
    transfer_file-ctx_rest env true false (codes "f") (codes "STOR f") 0 pasv_session refl

root-IsCleanAbs : IsCleanAbs user_session.client.path
unfolding new_client_handler join
root-IsCleanAbs = record { elements = []; names = tt; path_is = refl }

handle_cwd-IsCleanAbs_example :
    IsCleanAbs (handle_cwd env (codes "a") user_session).1.client.path
    × IsCleanAbs (handle_cdup env (codes "a") user_session).1.client.path
handle_cwd-IsCleanAbs_example = handle_cwd-IsCleanAbs env (codes "a") user_session root-IsCleanAbs

-- The session in which PORT was received.
abbrev port_session : Session ℕ
port_session = record user_session {
  client = record (user_session.client) { command = codes "PORT" };
}

abbrev no_connection : Option ℕ
no_connection = none

handle_port-checked_example :
    let s' = (handle_port env (codes "10,0,0,6,2,1") port_session).1 in
    (env.settings.disable_active_mode ≡ false)
    × (check_data_connection_requirement env client_ip active_channel ≡ none)
    × (no_connection ≡ none)
    × (false ≡ true → has_tls_for_transfers env.settings port_session.client ≡ true)
    × (reply_codes s'.log ≡ 200 ∷ reply_codes port_session.log)
unfolding handle_port parse_port_addr matches_remote_addr split join equal cut parse_int read_digits
    decimal digits check_data_connection_requirement get_ip_from_remote_addr ip_equal
    new_client_handler
handle_port-checked_example =
    handle_port-checked env (codes "10,0,0,6,2,1") port_session
      (record { ip = client_ip; port = 513 }) false no_connection [] refl (ground arith)

handle_port-ignores_pending_example :
    (handle_port env (codes "10,0,0,6,2,1") (record port_session {
      client = record (port_session.client) { transfer = some pending };
    })).1.world
    ≡ (handle_port env (codes "10,0,0,6,2,1") port_session).1.world
handle_port-ignores_pending_example =
    handle_port-ignores_pending env (codes "10,0,0,6,2,1") port_session (some pending)

env_net-IsNetwork : IsNetwork env.net
unfolding cut
env_net-IsNetwork = record {
  intn_below = λ n w p. p;
  resolved_port =
      λ p w addr b h. let read = parse_int-decimal 64 p (omega arith) (omega arith) in ground arith;
  listened_port = λ p w l o h. ground arith;
}

abbrev listener : Listener
listener = record { listener_id = 3; listener_port = 2000 }

abbrev ports : PortRange
ports = record { start = 2000; end = 2010 }

find_listener-within_example :
    (ports.start ≤ listener.listener_port) × (listener.listener_port ≤ ports.end)
unfolding find_listener_within_port_range attempts_of try_ports cut parse_int read_digits decimal
    digits new_client_handler
find_listener-within_example =
    find_listener-within env env_net-IsNetwork ports user_session
      (record user_session { world = 1 }) listener (omega arith) (omega arith) (omega arith) refl

-- The file /f is found.
f_found :
    (env.main.driver 0).stat (abs_path user_session.client.path (codes "f")) user_session.world
    ≡ (ok file_info, 1)
unfolding abs_path is_abs clean clean_elements push go_up join_path split join equal
    new_client_handler
f_found = refl

handle_rnto-renames_example :
    let (e, w') =
      (env.main.driver 0).rename
        (abs_path user_session.client.path (codes "f"))
        (abs_path user_session.client.path (codes "a/g"))
        1 in
    let s' = (handle_rnto env (codes "a/g") (handle_rnfr env (codes "f") user_session).1).1 in
    (s'.world ≡ w')
    × (e ≡ none
        → (s'.client.ctx_rnfr ≡ [])
          × ((handle_rnto env (codes "h") s').1.world ≡ w')
          × (reply_codes (handle_rnto env (codes "h") s').1.log ≡ 503 ∷ reply_codes s'.log))
handle_rnto-renames_example =
    handle_rnto-renames env (codes "f") (codes "a/g") (codes "h") 0 user_session file_info 1 refl
      root-IsCleanAbs f_found
