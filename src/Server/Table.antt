-- ===== src/Server/Table.antt =====
-- What holds of every entry of commandsMap holds of the command that a name stands for.
use ftpserverlib.Prelude.{
  Bool, true, List, [], ◌∷◌, some, ◌≡◌, inl, inr, arith, ◌&&◌, Option-cases, Bool-cases,
}
use ftpserverlib.Text.{Bytes, equal}
use ftpserverlib.Server.Commands.{
  CommandDescription, commands_map, special_attention_commands, find_command,
}
use ftpserverlib.Server.Dispatch.{lookup_command, find_special}

unfoldable pub every : (CommandDescription → Bool) → List (Bytes × CommandDescription) → Bool
every p [] = true
every p ((name, d) ∷ commands) = p d && every p commands

find_command-every :
    (p : CommandDescription → Bool) (name : Bytes) (commands : List (Bytes × CommandDescription))
    (d : CommandDescription)
    → every p commands ≡ true
    → find_command name commands ≡ some d
    → p d ≡ true
unfolding find_command every
find_command-every p name [] d t f = ground arith
find_command-every p name ((key, d') ∷ commands) d t f =
    let rest = find_command-every p name commands d in
    elim (Bool-cases (equal name key)) [
      | inl y ↦ ground arith
      | inr n ↦ rest (ground arith) (ground arith)
    ]

pub lookup_command-every :
    (p : CommandDescription → Bool) (name : Bytes) (d : CommandDescription)
    → every p commands_map ≡ true
    → (lookup_command name).1 ≡ some d
    → p d ≡ true
unfolding lookup_command
lookup_command-every p name d all f =
    let direct = find_command-every p name commands_map d all in
    elim (Option-cases (find_command name commands_map)) [
      | inr (d', e) ↦ direct (ground arith)
      | inl e ↦ elim (Option-cases (find_special name special_attention_commands)) [
        | inl e' ↦ ground arith
        | inr (cmd, e') ↦ find_command-every p cmd commands_map d all (ground arith)
      ]
    ]
