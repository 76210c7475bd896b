-- ===== src/Misc/Status.antt =====
-- STAT: handleSTAT and handleSTATServer.
use ftpserverlib.Codes.{status_command_not_implemented, status_system_status}
use ftpserverlib.Prelude.{Bool, true, false, [], ◌++◌, Option, none, some}
use ftpserverlib.Text.{Bytes, codes, equal}
use ftpserverlib.Errors.{Error}
use ftpserverlib.Reply.{continued, closing}
use ftpserverlib.Session.{Env, M, pure, gets, call, reply, write_line, ◌>>=◌, ◌>>◌}
use ftpserverlib.Transfer.{get_transfer_info}
use ftpserverlib.Files.{handle_stat_file}

-- What %s prints for the address of a connection.
abbrev address_text : Option Bytes → Bytes
address_text none = codes "%!s(<nil>)"
address_text (some address) = address

module _ {W : Type 0} (env : Env W) where
  abbrev login_line : Bool → Bytes → Bytes
  login_line true user = codes "Not logged in yet"
  login_line false user = codes "Logged in as " ++ user

  abbrev transfer_lines : Bool → Bytes → M W (Unit {0})
  transfer_lines true info = pure tt
  transfer_lines false info = do write_line (codes "Transfer connection open"); write_line info

  abbrev stat_server_at : Bool → M W (Option Error)
  stat_server_at true = do
    reply status_command_not_implemented (codes "STAT is disabled")
    pure none
  stat_server_at false = do
    write_line (continued status_system_status (codes "Server status"))
    connected_at ← gets (λ c. c.connected_at)
    duration ← call (env.elapsed connected_at)
    write_line (
        codes "Connected to "
        ++ env.settings.listen_addr
        ++ codes " from "
        ++ address_text env.net.remote_addr
        ++ codes " for "
        ++ duration)
    user ← gets (λ c. c.user)
    write_line (login_line (equal user []) user)
    info ← gets get_transfer_info
    transfer_lines (equal info []) info
    write_line env.settings.banner
    write_line (closing status_system_status (codes "End"))
    pure none

  -- handleSTATServer
  unfoldable pub handle_stat_server : M W (Option Error)
  handle_stat_server = stat_server_at env.settings.disable_stat

  abbrev pub stat_of : Bool → Bytes → M W (Option Error)
  stat_of true param = handle_stat_server
  stat_of false param = handle_stat_file env param

  unfoldable pub handle_stat : Bytes → M W (Option Error)
  handle_stat param = stat_of (equal param []) param
