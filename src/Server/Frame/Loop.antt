-- ===== src/Server/Frame/Loop.antt =====
-- What the loop of a connection leaves, from what the commands leave.
use ftpserverlib.Prelude.{
  Bool, true, false, List, [], ◌∷◌, Option, none, some, ◌≡◌, refl, arith, All,
}
use ftpserverlib.Text.{Bytes, to_upper}
use ftpserverlib.Errors.{Error}
use ftpserverlib.Session.{
  Env, Client, M, Outcome, done, panic, callback, disconnect, ◌>>=◌, ◌>>◌, reply, pure,
}
use ftpserverlib.Session.Leaves.{Same, IsFrame, Leaves, bind-Leaves, Same-Leaves}
use ftpserverlib.Transfer.{close_transfer}
use ftpserverlib.Server.Commands.{CommandDescription, run}
use ftpserverlib.Server.Dispatch.{
  parse_line, lookup_command, recovered, execute_command_fn, start, admitted, dispatch,
  handle_command,
}
use ftpserverlib.Server.Connection.{
  Read, received, too_long, timed_out, failed, read_from, read_command, unless_ended, read_commands,
  end_connection, at_end, welcomed, handle_commands,
}

-- What a received line asks for.
abbrev pub asked : Bytes → Option CommandDescription
asked line = (lookup_command (to_upper (parse_line line).0)).1

module _ {W : Type 0} (env : Env W) where
  recovered-Same : (r : Outcome (Option Error)) → Leaves Same (recovered env r)
  recovered-Same (panic text) = record { at = λ s. ground arith }
  recovered-Same (done none) = record { at = λ s. ground arith }
  recovered-Same (done (some e)) = record { at = λ s. ground arith }

  hang_up-Same : Leaves Same (disconnect >> (close_transfer env >> pure tt))
  unfolding close_transfer
  hang_up-Same = record { at = λ s. ground arith }

module _ {W : Type 0} (env : Env W) (R : Client → Client → Type 0) where
  -- The commands that a line may ask for.
  abbrev pub Ran : Read → Type 0
  Ran (received line) =
      (d : CommandDescription)
      → asked line ≡ some d
      → Leaves R (run env d.handler (parse_line line).1)
  Ran _ = Unit

module _ {W : Type 0} (env : Env W) (R : Client → Client → Type 0) (frame : IsFrame R)
    (of_same : (c c' : Client) → Same c c' → R c c') where
  execute_command_fn-Leaves :
      (d : CommandDescription) (param : Bytes)
      → Leaves R (run env d.handler param)
      → Leaves R (execute_command_fn env d param)
  unfolding execute_command_fn
  execute_command_fn-Leaves d param ran = record {
    at = λ s.
        let (r, s') = run env d.handler param s in
        frame.in_turn s.client s'.client (recovered env r s').1.client (ran.at s)
          (of_same _ _ ((recovered-Same env r).at s'));
  }

  start-Leaves :
      (b : Bool) (d : CommandDescription) (param : Bytes)
      → Leaves R (run env d.handler param)
      → Leaves R (start env b d param)
  start-Leaves true d param ran = record {
    at = λ s.
        let s1 = record s { client = record (s.client) { is_transfer_aborted = false } } in
        frame.in_turn s.client s1.client (execute_command_fn env d param s1).1.client
          (of_same s.client s1.client (refl, refl, refl))
          ((execute_command_fn-Leaves d param ran).at s1);
  }
  start-Leaves false d param ran = execute_command_fn-Leaves d param ran

  admitted-Leaves :
      (without_login : Bool) (command : Bytes) (d : CommandDescription) (param : Bytes)
      → Leaves R (run env d.handler param)
      → Leaves R (admitted env without_login command d param)
  admitted-Leaves true command d param ran =
      Same-Leaves R _ of_same (record { at = λ s. ground arith })
  admitted-Leaves false command d param ran = record {
    at = λ s.
        let s1 = record s { client = record (s.client) { command = command } } in
        frame.in_turn s.client s1.client (start env d.transfer_related d param s1).1.client
          (of_same s.client s1.client (refl, refl, refl))
          ((start-Leaves d.transfer_related d param ran).at s1);
  }

  dispatch-Leaves :
      (found : Bytes × Option CommandDescription) (param : Bytes)
      → ((d : CommandDescription) → found.1 ≡ some d → Leaves R (run env d.handler param))
      → Leaves R (dispatch env found param)
  dispatch-Leaves (command, none) param ran =
      Same-Leaves R _ of_same (record { at = λ s. ground arith })
  dispatch-Leaves (command, some d) param ran = record {
    at = λ s. (admitted-Leaves _ command d param (ran d refl)).at s;
  }

  pub handle_command-Leaves :
      (line : Bytes)
      → ((d : CommandDescription)
          → asked line ≡ some d
          → Leaves R (run env d.handler (parse_line line).1))
      → Leaves R (handle_command env line)
  unfolding handle_command
  handle_command-Leaves line ran = dispatch-Leaves _ _ ran

  read_from-Leaves : (reads : Bool) (r : Read) → Ran env R r → Leaves R (read_from env reads r)
  read_from-Leaves false r ran = Same-Leaves R _ of_same (record { at = λ s. ground arith })
  read_from-Leaves true too_long ran = Same-Leaves R _ of_same (record { at = λ s. ground arith })
  read_from-Leaves true failed ran = Same-Leaves R _ of_same (record { at = λ s. ground arith })
  read_from-Leaves true timed_out ran = Same-Leaves R _ of_same (record { at = λ s. ground arith })
  read_from-Leaves true (received line) ran =
      bind-Leaves R frame (handle_command env line) (λ a. pure false)
        (handle_command-Leaves line ran)
        (λ a. Same-Leaves R _ of_same (record { at = λ s. ground arith }))

  read_command-Leaves : (r : Read) → Ran env R r → Leaves R (read_command env r)
  unfolding read_command
  read_command-Leaves r ran = record { at = λ s. (read_from-Leaves s.client.has_reader r ran).at s }

  unless_ended-Leaves :
      (ended : Bool) (m : M W Bool) → Leaves R m → Leaves R (unless_ended env ended m)
  unless_ended-Leaves true m rest = Same-Leaves R _ of_same (record { at = λ s. ground arith })
  unless_ended-Leaves false m rest = rest

  pub read_commands-Leaves :
      (reads : List Read) → All (Ran env R) reads → Leaves R (read_commands env reads)
  unfolding read_commands
  read_commands-Leaves [] ran = Same-Leaves R _ of_same (record { at = λ s. ground arith })
  read_commands-Leaves (r ∷ reads) (first, others) =
      bind-Leaves R frame (read_command env r)
        (λ ended. unless_ended env ended (read_commands env reads)) (read_command-Leaves r first)
        (λ ended.
          unless_ended-Leaves ended (read_commands env reads) (read_commands-Leaves reads others))

  end_connection-Leaves :
      Leaves R (callback env env.main.client_disconnected) → Leaves R (end_connection env)
  unfolding end_connection
  end_connection-Leaves disconnected =
      bind-Leaves R frame (callback env env.main.client_disconnected)
        (λ a. disconnect >> (close_transfer env >> pure tt)) disconnected
        (λ a. Same-Leaves R _ of_same (hang_up-Same env))

  at_end-Leaves :
      (disconnected : Leaves R (callback env env.main.client_disconnected)) (ended : Bool)
      → Leaves R (at_end env ended)
  at_end-Leaves disconnected true =
      bind-Leaves R frame (end_connection env) (λ a. pure true) (end_connection-Leaves disconnected)
        (λ a. Same-Leaves R _ of_same (record { at = λ s. ground arith }))
  at_end-Leaves disconnected false = Same-Leaves R _ of_same (record { at = λ s. ground arith })

  welcomed-Leaves :
      (text : Bytes) (e : Option Error) (reads : List Read)
      → Leaves R (callback env env.main.client_disconnected)
      → All (Ran env R) reads
      → Leaves R (welcomed env text e reads)
  welcomed-Leaves text none reads disconnected ran =
      bind-Leaves R frame (reply 220 text) (λ a. read_commands env reads >>= at_end env)
        (Same-Leaves R _ of_same (record { at = λ s. ground arith }))
        (λ a.
          bind-Leaves R frame (read_commands env reads) (at_end env)
            (read_commands-Leaves reads ran) (at_end-Leaves disconnected))
  welcomed-Leaves text (some e) reads disconnected ran =
      bind-Leaves R frame (reply 500 text) (λ a. at_end env true)
        (Same-Leaves R _ of_same (record { at = λ s. ground arith }))
        (λ a. at_end-Leaves disconnected true)

  pub handle_commands-Leaves :
      (reads : List Read)
      → Leaves R (callback env env.main.client_connected)
      → Leaves R (callback env env.main.client_disconnected)
      → All (Ran env R) reads
      → Leaves R (handle_commands env reads)
  unfolding handle_commands
  handle_commands-Leaves reads connected disconnected ran =
      bind-Leaves R frame (callback env env.main.client_connected) (λ r. welcomed env r.0 r.1 reads)
        connected (λ r. welcomed-Leaves r.0 r.1 reads disconnected ran)
