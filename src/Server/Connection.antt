-- ===== src/Server/Connection.antt =====
-- HandleCommands, readCommand, handleCommandsStreamError and end of client_handler.go. What ReadLine
-- returns is a list: one entry for each call, as long as the loop asks. An entry is not looked at
-- once the reader is nil.
use ftpserverlib.Codes.{
  status_service_not_available, status_service_ready, status_syntax_error_not_recognised,
}
use ftpserverlib.Prelude.{Bool, true, false, not, List, [], ◌∷◌, ◌++◌, Option, none, some}
use ftpserverlib.Text.{Bytes, codes}
use ftpserverlib.Text.Decimal.{decimal}
use ftpserverlib.Errors.{Error}
use ftpserverlib.Session.{Env, M, pure, gets, callback, reply, disconnect, ◌>>=◌, ◌>>◌}
use ftpserverlib.Transfer.{close_transfer}
use ftpserverlib.Server.Dispatch.{handle_command}

-- A line without its end, a line beyond maxCommandSize, a deadline that passed, or another error
-- or the end of the stream.
pub data Read : Type 0 where
  received : Bytes → Read
  too_long timed_out failed : Read

module _ {W : Type 0} (env : Env W) where
  abbrev pub read_from : Bool → Read → M W Bool
  read_from false _ = pure true
  read_from true too_long = pure true
  read_from true failed = pure true
  read_from true timed_out = do
    reply status_service_not_available (
        codes "command timeout ("
        ++ decimal env.settings.idle_timeout
        ++ codes " seconds): closing control connection")
    pure true
  read_from true (received line) = do handle_command env line; pure false

  -- readCommand: whether the loop ends
  unfoldable pub read_command : Read → M W Bool
  read_command r = do reads ← gets (λ c. c.has_reader); read_from reads r

  abbrev pub unless_ended : Bool → M W Bool → M W Bool
  unless_ended true rest = pure true
  unless_ended false rest = rest

  -- The loop of HandleCommands: whether it ended within these reads.
  unfoldable pub read_commands : List Read → M W Bool
  read_commands [] = gets (λ c. not c.has_reader)
  read_commands (r ∷ reads) = do ended ← read_command r; unless_ended ended (read_commands reads)

  -- end
  unfoldable pub end_connection : M W (Unit {0})
  end_connection = do
    callback env env.main.client_disconnected
    disconnect
    close_transfer env
    pure tt

  abbrev pub at_end : Bool → M W Bool
  at_end true = do end_connection; pure true
  at_end false = pure false

  abbrev pub welcomed : Bytes → Option Error → List Read → M W Bool
  welcomed text none reads = do
    reply status_service_ready text
    ended ← read_commands reads
    at_end ended
  welcomed text (some e) reads = do
    reply status_syntax_error_not_recognised text
    end_connection
    pure true

  -- HandleCommands: whether it returned within these reads
  unfoldable pub handle_commands : List Read → M W Bool
  handle_commands reads = do r ← callback env env.main.client_connected; welcomed r.0 r.1 reads
