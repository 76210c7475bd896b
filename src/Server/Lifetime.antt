-- ===== src/Server/Lifetime.antt =====
-- How a connection ends.
use ftpserverlib.Prelude.{
  Option-cases, true, false, List, [], ◌∷◌, ◌++◌, none, some, ◌≡◌, inl, inr, arith,
}
use ftpserverlib.Text.{Bytes, to_upper}
use ftpserverlib.Session.{
  Env, Session, Outcome-cases, ◌>>=◌, done, message, reply_codes, apply_context,
}
use ftpserverlib.Transfer.{close_transfer}
use ftpserverlib.Misc.{handle_quit}
use ftpserverlib.Server.Commands.{quit_command, CommandDescription, run}
use ftpserverlib.Server.Dispatch.{parse_line, lookup_command, handle_command, execute_command_fn}
use ftpserverlib.Server.Connection.{
  Read, received, too_long, timed_out, failed, read_command, read_commands, end_connection, at_end,
  handle_commands,
}

module _ {W : Type 0} (env : Env W) where
  at_end-shut :
      (reads : List Read) (s s' : Session W)
      → (read_commands env reads >>= at_end env) s ≡ (done true, s')
      → (s'.client.closed ≡ true) × (s'.client.transfer ≡ none)
  unfolding end_connection close_transfer
  at_end-shut reads s s' h = elim (Outcome-cases (read_commands env reads s).0) [
    | inl (true, is_done) ↦ ground arith
    | inl (false, is_done) ↦ ground arith
    | inr (text, is_panic) ↦ ground arith
  ]

  handle_commands-shut :
      (reads : List Read) (s s' : Session W)
      → handle_commands env reads s ≡ (done true, s')
      → (s'.client.closed ≡ true) × (s'.client.transfer ≡ none)
  unfolding handle_commands end_connection close_transfer
  handle_commands-shut reads s s' h =
      let ((text, e), calls, w) = env.main.client_connected s.world in
      let (c, w') = apply_context env calls s.client w in
      elim (Option-cases e) [
        | inl welcome ↦
            at_end-shut reads (record s { client = c; world = w'; log = message 220 text ∷ s.log })
              s' (ground arith)
        | inr (e', refused) ↦ ground arith
      ]

  handle_command-done : (line : Bytes) (s : Session W) → (handle_command env line s).0 ≡ done tt
  unfolding handle_command execute_command_fn
  handle_command-done line s = ground arith

  read_commands-done :
      (reads : List Read) (s : Session W)
      → (read_commands env (reads ++ (failed ∷ [])) s).0 ≡ done true
  unfolding read_commands read_command
  read_commands-done [] s = ground arith
  read_commands-done (received line ∷ reads) s =
      let answered = handle_command-done line s in
      let rest = read_commands-done reads (handle_command env line s).1 in ground arith
  read_commands-done (too_long ∷ reads) s = ground arith
  read_commands-done (timed_out ∷ reads) s = ground arith
  read_commands-done (failed ∷ reads) s = ground arith

  handle_commands-done :
      (reads : List Read) (s : Session W)
      → (handle_commands env (reads ++ (failed ∷ [])) s).0 ≡ done true
  unfolding handle_commands end_connection close_transfer
  handle_commands-done reads s =
      let ((text, e), calls, w) = env.main.client_connected s.world in
      let (c, w') = apply_context env calls s.client w in
      let ended =
        read_commands-done reads
          (record s { client = c; world = w'; log = message 220 text ∷ s.log }) in
      ground arith

  -- Whatever a client sends before its stream ends, and whatever the drivers answer, and
  -- whatever panics in the server, the handler of the connection returns; then the control connection is closed and no transfer
  -- connection is left.
  pub handle_commands-ends :
      (reads : List Read) (s : Session W)
      → let (r, s') = handle_commands env (reads ++ (failed ∷ [])) s in
        (r ≡ done true) × (s'.client.closed ≡ true) × (s'.client.transfer ≡ none)
  handle_commands-ends reads s =
      let returns = handle_commands-done reads s in
      let (r, s') = handle_commands env (reads ++ (failed ∷ [])) s in
      let shut = handle_commands-shut (reads ++ (failed ∷ [])) s s' (ground arith) in
      (returns, shut.0, shut.1)

  handle_command-quit :
      (line : Bytes) (d : CommandDescription) (s : Session W)
      → (lookup_command (to_upper (parse_line line).0)).1 ≡ some d
      → d.handler ≡ quit_command
      → d.is_open ≡ true
      → let (r, s') = handle_command env line s in
        (r ≡ done tt)
        × (s'.client.has_reader ≡ false)
        × (s'.client.closed ≡ true)
        × (reply_codes s'.log ≡ 221 ∷ reply_codes s.log)
  unfolding handle_command execute_command_fn run handle_quit
  handle_command-quit line d s f q o = ground arith

  read_commands-no_reader :
      (reads : List Read) (s : Session W)
      → s.client.has_reader ≡ false
      → ((read_commands env reads s).0 ≡ done true) × ((read_commands env reads s).1 ≡ s)
  unfolding read_commands read_command
  read_commands-no_reader [] s n = ground arith
  read_commands-no_reader (r ∷ reads) s n = ground arith

  -- After QUIT nothing more is read: it is answered with 221, closes the connection, and the loop
  -- ends with the state that it left, whatever the client sent behind it.
  pub read_commands-quit :
      (line : Bytes) (reads : List Read) (d : CommandDescription) (s : Session W)
      → s.client.has_reader ≡ true
      → (lookup_command (to_upper (parse_line line).0)).1 ≡ some d
      → d.handler ≡ quit_command
      → d.is_open ≡ true
      → let (r, s') = read_commands env (received line ∷ reads) s in
        (r ≡ done true)
        × (s' ≡ (handle_command env line s).1)
        × (s'.client.closed ≡ true)
        × (reply_codes s'.log ≡ 221 ∷ reply_codes s.log)
  unfolding read_commands read_command
  read_commands-quit line reads d s r f q o =
      let quit = handle_command-quit line d s f q o in
      let over = read_commands-no_reader reads (handle_command env line s).1 quit.1 in ground arith
