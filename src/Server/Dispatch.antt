-- ===== src/Server/Dispatch.antt =====
-- parseLine, handleCommand and executeCommandFn of client_handler.go, for commands that run one
-- after the other: transferWg.Wait has nothing to wait for, and the goroutine of a transfer command
-- runs to its end. Transfer.Replies has the interleavings with ABOR.
use ftpserverlib.Codes.{status_not_logged_in, status_syntax_error_not_recognised}
use ftpserverlib.Prelude.{
  ℕ, Bool, true, false, not, List, [], ◌∷◌, ◌++◌, Option, none, some, if◌then◌else◌,
}
use ftpserverlib.Text.{Bytes, codes, split_n, to_upper, has_suffix}
use ftpserverlib.Text.Quote.{quote}
use ftpserverlib.Errors.{Error, error_string}
use ftpserverlib.Session.{Env, Outcome, done, panic, M, pure, gets, modify, reply, ◌>>=◌, ◌>>◌}
use ftpserverlib.Server.Commands.{
  CommandDescription, commands_map, find_command, special_attention_commands, run,
}

abbrev line_parts : List Bytes → Bytes × Bytes
line_parts [] = ([], [])
line_parts (command ∷ []) = (command, [])
line_parts (command ∷ param ∷ _) = (command, param)

unfoldable pub parse_line : Bytes → Bytes × Bytes
parse_line line = line_parts (split_n 2 b' ' line)

-- The first special command that the received one ends in.
unfoldable pub find_special : Bytes → List Bytes → Option Bytes
find_special command [] = none
find_special command (cmd ∷ commands) =
    if has_suffix cmd command then some cmd else find_special command commands

abbrev special_command : Bytes → Option Bytes → Bytes × Option CommandDescription
special_command command none = (command, none)
special_command command (some cmd) = (cmd, find_command cmd commands_map)

abbrev or_special : Bytes → Option CommandDescription → Bytes × Option CommandDescription
or_special command (some d) = (command, some d)
or_special command none = special_command command (find_special command special_attention_commands)

-- The command that a received name stands for.
unfoldable pub lookup_command : Bytes → Bytes × Option CommandDescription
lookup_command command = or_special command (find_command command commands_map)

module _ {W : Type 0} (env : Env W) where
  -- executeCommandFn, with what its deferred function does
  abbrev pub recovered : Outcome (Option Error) → M W (Unit {0})
  recovered (panic text) =
      reply status_syntax_error_not_recognised (codes "Unhandled internal error: " ++ text)
  recovered (done (some e)) =
      reply status_syntax_error_not_recognised (codes "Error: " ++ error_string e)
  recovered (done none) = pure tt

  unfoldable pub execute_command_fn : CommandDescription → Bytes → M W (Unit {0})
  execute_command_fn d param s = let (r, s') = run env d.handler param s in recovered r s'

  abbrev pub start : Bool → CommandDescription → Bytes → M W (Unit {0})
  start true d param = do
    modify (λ c. record c { is_transfer_aborted = false })
    execute_command_fn d param
  start false d param = execute_command_fn d param

  abbrev refused : Option ℕ → Bool → Bool
  refused none is_open = not is_open
  refused (some _) is_open = false

  abbrev pub admitted : Bool → Bytes → CommandDescription → Bytes → M W (Unit {0})
  admitted true command d param =
      reply status_not_logged_in (codes "Please login with USER and PASS")
  admitted false command d param = do
    modify (λ c. record c { command = command })
    start d.transfer_related d param

  abbrev pub dispatch : Bytes × Option CommandDescription → Bytes → M W (Unit {0})
  dispatch (command, none) param = do
    modify (λ c. record c { command = command })
    reply status_syntax_error_not_recognised (codes "Unknown command " ++ quote command)
  dispatch (command, some d) param = do
    without_login ← gets (λ c. refused c.driver d.is_open)
    admitted without_login command d param

  unfoldable pub handle_command : Bytes → M W (Unit {0})
  handle_command line =
      let (command, param) = parse_line line in dispatch (lookup_command (to_upper command)) param
