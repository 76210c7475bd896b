-- ===== src/Server/Confined.antt =====
-- What holds of a connection whatever lines a client sends.
use ftpserverlib.Prelude.{Bool, false, List, [], ◌∷◌, none, some, ◌≡◌, sym, arith, All}
use mathlib.Core.Path.{subst}
use ftpserverlib.Text.{Bytes}
use ftpserverlib.Paths.{dotdot}
use ftpserverlib.Paths.Clean.{IsCleanAbs, IsCleanAbs-is_abs, abs_path-IsCleanAbs}
use ftpserverlib.Session.{Env, Session}
use ftpserverlib.Session.Tame.{
  IsTame, Stays, Stays-IsFrame, Framed, Framed-IsFrame, Anywhere, IsTame-Anywhere, callback-Framed,
}
use ftpserverlib.Dirs.{cdup_target}
use ftpserverlib.Dirs.Cwd.{cdup_target-abs_path}
use ftpserverlib.Server.Dispatch.{parse_line}
use ftpserverlib.Server.Connection.{
  Read, received, too_long, timed_out, failed, read_commands, handle_commands,
}
use ftpserverlib.Server.Frame.Login.{Framed-Stays}
use ftpserverlib.Server.Frame.Run.{is_login, run-Framed, run-Stays}
use ftpserverlib.Server.Frame.Loop.{asked, Ran, read_commands-Leaves, handle_commands-Leaves}

cdup_target-IsCleanAbs : (p : Bytes) → IsCleanAbs p → IsCleanAbs (cdup_target p)
cdup_target-IsCleanAbs p c =
    subst IsCleanAbs (sym (cdup_target-abs_path p c))
      (abs_path-IsCleanAbs p dotdot (IsCleanAbs-is_abs c))

-- A line that is USER or PASS, under a name that the server takes for it.
abbrev pub asks_login : Read → Bool
asks_login (received line) = elim (asked line) [ some d ↦ is_login d.handler | none ↦ false ]
asks_login _ = false

module _ {W : Type 0} (env : Env W) where
  reads-Ran : (reads : List Read) → IsTame IsCleanAbs env → All (Ran env (Stays IsCleanAbs)) reads
  reads-Ran [] tame = tt
  reads-Ran (received line ∷ reads) tame = (
    λ d asked_d.
        run-Stays env IsCleanAbs tame
          (λ p param c. abs_path-IsCleanAbs p param (IsCleanAbs-is_abs c)) cdup_target-IsCleanAbs
          d.handler (parse_line line).1,
    reads-Ran reads tame,
  )
  reads-Ran (too_long ∷ reads) tame = (tt, reads-Ran reads tame)
  reads-Ran (timed_out ∷ reads) tame = (tt, reads-Ran reads tame)
  reads-Ran (failed ∷ reads) tame = (tt, reads-Ran reads tame)

  -- From the welcome to the end of a connection, the working directory stays a clean absolute
  -- path, whatever lines the client sends and whatever the drivers answer, if the drivers
  -- themselves set no other path through their ClientContext.
  pub handle_commands-IsCleanAbs :
      (reads : List Read) (s : Session W)
      → IsTame IsCleanAbs env
      → IsCleanAbs s.client.path
      → IsCleanAbs (handle_commands env reads s).1.client.path
  handle_commands-IsCleanAbs reads s tame c =
      (handle_commands-Leaves env (Stays IsCleanAbs) (Stays-IsFrame IsCleanAbs)
          (λ c c' same h. subst IsCleanAbs (sym same.2) h) reads
          (Framed-Stays env IsCleanAbs tame _
            (callback-Framed IsCleanAbs env env.main.client_connected tame.client_connected_tame))
          (Framed-Stays env IsCleanAbs tame _ (
            callback-Framed IsCleanAbs env env.main.client_disconnected
              tame.client_disconnected_tame))
          (reads-Ran reads tame)).at
        s c

  other-Ran :
      (reads : List Read)
      → All (λ r. asks_login r ≡ false) reads
      → All (Ran env (Framed Anywhere)) reads
  other-Ran [] others = tt
  other-Ran (received line ∷ reads) (first, others) = (
    λ d asked_d.
        run-Framed env Anywhere (IsTame-Anywhere env) (λ p param a. tt) (λ p a. tt) d.handler
          (parse_line line).1 (ground arith),
    other-Ran reads others,
  )
  other-Ran (too_long ∷ reads) (first, others) = (tt, other-Ran reads others)
  other-Ran (timed_out ∷ reads) (first, others) = (tt, other-Ran reads others)
  other-Ran (failed ∷ reads) (first, others) = (tt, other-Ran reads others)

  -- However many lines a client sends, it keeps its driver and its user, or the lack of them,
  -- unless one of the lines is USER or PASS: no other command, in no order, logs a client in or
  -- makes it another user.
  pub read_commands-driver :
      (reads : List Read) (s : Session W)
      → All (λ r. asks_login r ≡ false) reads
      → ((read_commands env reads s).1.client.driver ≡ s.client.driver)
        × ((read_commands env reads s).1.client.user ≡ s.client.user)
  read_commands-driver reads s others =
      let framed =
        (read_commands-Leaves env (Framed Anywhere) (Framed-IsFrame Anywhere)
            (λ c c' same. (same.0, same.1, λ h. h)) reads (other-Ran reads others)).at
          s in
      (framed.0, framed.1)
