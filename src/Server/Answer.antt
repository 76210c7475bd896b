-- ===== src/Server/Answer.antt =====
-- Each command is answered once: by its handler, or by executeCommandFn where that fails.
pub mod Simple
pub mod Parts
pub mod Hash
pub mod Transfers
pub mod Listing
pub mod Once
use ftpserverlib.Prelude.{false, ℕ, ◌+◌, none, some, ◌≡◌, Option}
use ftpserverlib.Errors.{Error}
use ftpserverlib.Text.{Bytes}
use ftpserverlib.Session.{Env, asks_close, Session, M, Outcome, done, panic}
use ftpserverlib.Transfer.Replies.{finals}

-- The final replies that a handler has written when it returns: none where it returns an error or
-- panics, since executeCommandFn answers then.
abbrev pub given : Outcome (Option Error) → ℕ
given (done none) = 1
given (done (some e)) = 0
given (panic text) = 0

abbrev pub written : {A : Type 0} → Outcome A → ℕ
written (done a) = 1
written (panic text) = 0

-- A driver that does not close the connection while it lists a directory.
abbrev pub ListsOpen : {W : Type 0} → Env W → Type 0
ListsOpen {W} env =
    (n : ℕ) (path : Bytes) (w : W) → asks_close ((env.main.driver n).read_dir path w).1 ≡ false

module _ {W : Type 0} where
  pub record Answers (m : M W (Option Error)) : Type 0 where
    pub at : (s : Session W) → finals (m s).1.log ≡ finals s.log + given (m s).0

  -- the same for a method that returns no error
  pub record Replies {A : Type 0} (m : M W A) : Type 0 where
    pub at : (s : Session W) → finals (m s).1.log ≡ finals s.log + written (m s).0

  -- the same for a client with a driver whose transfer was not aborted
  pub record AnswersReady (m : M W (Option Error)) : Type 0 where
    pub at :
        (s : Session W) (n : ℕ)
        → s.client.driver ≡ some n
        → s.client.is_transfer_aborted ≡ false
        → finals (m s).1.log ≡ finals s.log + given (m s).0
