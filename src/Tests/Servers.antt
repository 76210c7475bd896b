-- ===== src/Tests/Servers.antt =====
-- The loop of a connection and the loop that accepts them.
use ftpserverlib.Prelude.{true, false, List, [], ◌∷◌, ◌++◌, none, some, ◌≡◌, ◌≢◌, refl, inl, All}
use ftpserverlib.Text.{Bytes, codes, equal, split_n, cut, to_upper, join}
use ftpserverlib.Errors.{foreign}
use ftpserverlib.Session.{
  asks_close, done, panic, reply_codes, clear_or_encrypted, new_client_handler,
}
use ftpserverlib.Server.{
  user_command, quit_command, CommandDescription, commands_map, find_command, run, parse_line,
  lookup_command, handle_command, Read, received, failed, read_commands, handle_commands,
  new_ftp_server, AcceptError, Accepted, connection, refused, serve,
}
use ftpserverlib.Server.Guard.{open_command-no_panic}
use ftpserverlib.Server.Lifetime.{handle_commands-ends, read_commands-quit}
use ftpserverlib.Server.Backoff.{
  backoff, serve-backoff, IsDelay, serve-IsDelay, Numbered, serve-Numbered,
}
use ftpserverlib.Session.Tame.{IsTame}
use ftpserverlib.Paths.Clean.{IsCleanAbs}
use ftpserverlib.Server.Confined.{handle_commands-IsCleanAbs, read_commands-driver}
use ftpserverlib.Server.Answer.Once.{handle_command-once, is_answered}
use ftpserverlib.Transfer.Replies.{finals}
use ftpserverlib.Prelude.{◌+◌, arith}
use ftpserverlib.Server.Frame.Loop.{asked}
use ftpserverlib.Tests.World.{env, settings_with, fresh_session, pasv_session}

-- A line of a client that is not logged in.
abbrev retr : Bytes
retr = codes "RETR f"

retr-is_answered : (d : CommandDescription) → asked retr ≡ some d → is_answered d.handler ≡ true
unfolding lookup_command find_command commands_map equal parse_line split_n cut to_upper
retr-is_answered d is = ground arith

-- A download behind PASV.
handle_command-once_example :
    ((handle_command env retr pasv_session).0 ≡ done tt)
    × (finals (handle_command env retr pasv_session).1.log ≡ finals pasv_session.log + 1)
unfolding asks_close
handle_command-once_example =
    handle_command-once env retr pasv_session (λ n path w. refl) retr-is_answered

abbrev user_description : CommandDescription
user_description = record {
  is_open = true;
  transfer_related = false;
  special_action = false;
  handler = user_command;
}

abbrev quit_description : CommandDescription
quit_description = record {
  is_open = true;
  transfer_related = false;
  special_action = true;
  handler = quit_command;
}

open_command-no_panic_example :
    (run env user_command (codes "u") fresh_session).0 ≢ panic (codes "nil pointer")
unfolding lookup_command find_command commands_map equal
open_command-no_panic_example =
    open_command-no_panic env (codes "USER") (codes "u") (codes "nil pointer") user_description
      fresh_session refl refl

read_commands-quit_example :
    let (r, s') = read_commands env (received (codes "QUIT") ∷ received retr ∷ []) fresh_session in
    (r ≡ done true)
    × (s' ≡ (handle_command env (codes "QUIT") fresh_session).1)
    × (s'.client.closed ≡ true)
    × (reply_codes s'.log ≡ 221 ∷ reply_codes fresh_session.log)
unfolding lookup_command find_command commands_map equal parse_line split_n cut to_upper
    new_client_handler
read_commands-quit_example =
    read_commands-quit env (codes "QUIT") (received retr ∷ []) quit_description fresh_session refl
      refl refl refl

-- A client that asks for a file without a login and then goes away.
handle_commands-ends_example :
    let (r, s') = handle_commands env ((received retr ∷ []) ++ (failed ∷ [])) fresh_session in
    (r ≡ done true) × (s'.client.closed ≡ true) × (s'.client.transfer ≡ none)
handle_commands-ends_example = handle_commands-ends env (received retr ∷ []) fresh_session

-- The drivers of the tests set no path.
env-IsTame : IsTame IsCleanAbs env
env-IsTame = record {
  client_disconnected_tame = λ w. tt;
  client_connected_tame = λ w. tt;
  auth_user_tame = λ user pass w. tt;
  verify_connection_tame = λ user w. tt;
  pre_auth_user_tame = λ user w. tt;
  post_auth_message_tame = λ user e w. tt;
  public_ip_resolver_tame = λ w. tt;
  read_dir_tame = λ n path w. tt;
}

fresh-IsCleanAbs : IsCleanAbs fresh_session.client.path
unfolding new_client_handler join
fresh-IsCleanAbs = record { elements = []; names = tt; path_is = refl }

-- A login, and then an attempt to leave the root.
abbrev escape : List Read
escape =
    received (codes "USER u")
    ∷ received (codes "PASS p")
    ∷ received (codes "CWD ../../a/..")
    ∷ failed
    ∷ []

handle_commands-IsCleanAbs_example :
    IsCleanAbs (handle_commands env escape fresh_session).1.client.path
handle_commands-IsCleanAbs_example =
    handle_commands-IsCleanAbs env escape fresh_session env-IsTame fresh-IsCleanAbs

read_commands-driver_example :
    ((read_commands env
        (received retr ∷ received (codes "CWD a") ∷ [])
        fresh_session).1.client.driver
      ≡ fresh_session.client.driver)
    × ((read_commands env
          (received retr ∷ received (codes "CWD a") ∷ [])
          fresh_session).1.client.user
        ≡ fresh_session.client.user)
unfolding lookup_command find_command commands_map equal parse_line split_n cut to_upper
read_commands-driver_example =
    read_commands-driver env (received retr ∷ received (codes "CWD a") ∷ []) fresh_session
      (refl, (refl, tt))

-- Two temporary errors, a client, another error, and a client.
abbrev busy : AcceptError
busy = record {
  op_error = some (codes "accept4: too many open files");
  temporary = true;
  accept_cause = foreign (codes "too many open files");
}

abbrev accepts : List Accepted
accepts = refused busy ∷ refused busy ∷ connection 1 false ∷ refused busy ∷ connection 2 false ∷ []

serve-backoff_example :
    (serve
      (settings_with clear_or_encrypted)
      7
      (connection 1 false ∷ refused busy ∷ refused busy ∷ [])
      new_ftp_server).delays
    ≡ 5000000 ∷ 10000000 ∷ []
unfolding backoff equal
serve-backoff_example =
    serve-backoff (settings_with clear_or_encrypted) 7 1 false (busy ∷ busy ∷ []) new_ftp_server
      ((refl, refl), ((refl, refl), tt))

serve-IsDelay_example :
    All IsDelay (serve (settings_with clear_or_encrypted) 0 accepts new_ftp_server).delays
serve-IsDelay_example =
    serve-IsDelay (settings_with clear_or_encrypted) 0 accepts new_ftp_server (inl refl)

serve-Numbered_example :
    Numbered 0 (serve (settings_with clear_or_encrypted) 0 accepts new_ftp_server).clients
serve-Numbered_example = serve-Numbered (settings_with clear_or_encrypted) 0 accepts new_ftp_server
