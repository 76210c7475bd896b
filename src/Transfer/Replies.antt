-- ===== src/Transfer/Replies.antt =====
-- The replies of a transfer command that runs beside ABOR commands, in every order of their
-- critical sections.
use ftpserverlib.Prelude.{
  ℕ, suc, ◌+◌, ◌≤◌, true, false, List, [], ◌∷◌, Option, none, ◌≡◌, ◌≢◌, arith, if◌then◌else◌, leb,
}
use ftpserverlib.Text.{Bytes}
use ftpserverlib.Errors.{Error, get_error_code}
use ftpserverlib.Session.{ok, err, Env, Session, done, Event, message, line, raw}
use ftpserverlib.Transfer.Defs.{transfer_open, transfer_close, handle_abor, close_transfer}

-- The replies that end a command: those of 200 and above.
abbrev pub finals : List Event → ℕ
finals [] = 0
finals (message code _ ∷ log) = (if leb 200 code then 1 else 0) + finals log
finals (line _ ∷ log) = finals log
finals (raw _ ∷ log) = finals log

-- Where the goroutine of the transfer command stands.
pub data Phase : Type 0 where
  before opened finished refused : Phase

pub record Run (W : Type 0) : Type 0 where
  pub phase : Phase
  pub aborts : ℕ
  pub session : Session W

module _ {W : Type 0} (env : Env W) where
  -- One critical section of the transfer command, one ABOR, or a change of the world outside.
  pub data Step (x y : Run W) : Type 0 where
    opens :
        (info : Bytes) (conn : ℕ)
        → x.phase ≡ before
        → y.phase ≡ opened
        → y.aborts ≡ x.aborts
        → transfer_open env info x.session ≡ (done (ok conn), y.session)
        → Step x y
    fails :
        (info : Bytes) (e : Error)
        → x.phase ≡ before
        → y.phase ≡ refused
        → y.aborts ≡ x.aborts
        → transfer_open env info x.session ≡ (done (err e), y.session)
        → Step x y
    closes :
        (e : Option Error)
        → x.phase ≡ opened
        → y.phase ≡ finished
        → y.aborts ≡ x.aborts
        → transfer_close env e x.session ≡ (done tt, y.session)
        → Step x y
    aborted :
        (param : Bytes)
        → y.phase ≡ x.phase
        → y.aborts ≡ suc x.aborts
        → handle_abor env param x.session ≡ (done none, y.session)
        → Step x y
    world_moves : (w : W) → y ≡ record x { session = record (x.session) { world = w } } → Step x y

  pub data Reach (x : Run W) : Run W → Type 0 where
    here : Reach x x
    next : {y z : Run W} → Reach x y → Step y z → Reach x z

-- What holds of a run whose log had `base` final replies at the start.
pub record Inv {W : Type 0} (base : ℕ) (x : Run W) : Type 0 where
  before_finals : x.phase ≡ before → finals x.session.log ≡ base + x.aborts
  before_shut : x.phase ≡ before → x.session.client.is_transfer_open ≡ false
  before_dead :
      x.phase ≡ before
      → x.session.client.is_transfer_aborted ≡ true
      → x.session.client.transfer ≡ none
  live_finals :
      x.phase ≡ opened
      → x.session.client.is_transfer_aborted ≡ false
      → finals x.session.log ≡ base + x.aborts
  live_open :
      x.phase ≡ opened
      → x.session.client.is_transfer_aborted ≡ false
      → x.session.client.is_transfer_open ≡ true
  live_transfer :
      x.phase ≡ opened
      → x.session.client.is_transfer_aborted ≡ false
      → x.session.client.transfer ≢ none
  dead_finals :
      x.phase ≡ opened
      → x.session.client.is_transfer_aborted ≡ true
      → finals x.session.log ≡ base + x.aborts + 1
  dead_transfer :
      x.phase ≡ opened
      → x.session.client.is_transfer_aborted ≡ true
      → x.session.client.transfer ≡ none
  dead_shut :
      x.phase ≡ opened
      → x.session.client.is_transfer_aborted ≡ true
      → x.session.client.is_transfer_open ≡ false
  finished_shut : x.phase ≡ finished → x.session.client.is_transfer_open ≡ false
  refused_shut : x.phase ≡ refused → x.session.client.is_transfer_open ≡ false
  finished_finals : x.phase ≡ finished → finals x.session.log ≡ base + x.aborts + 1
  refused_low : x.phase ≡ refused → base + x.aborts ≤ finals x.session.log
  refused_high : x.phase ≡ refused → finals x.session.log ≤ base + x.aborts + 1

module _ {W : Type 0} (env : Env W) where
  opens-Inv :
      (base : ℕ) (x y : Run W) (info : Bytes) (conn : ℕ)
      → x.phase ≡ before
      → y.phase ≡ opened
      → y.aborts ≡ x.aborts
      → transfer_open env info x.session ≡ (done (ok conn), y.session)
      → Inv base x
      → Inv base y
  unfolding transfer_open
  opens-Inv base x y info conn p q a h i = ground arith

  fails-Inv :
      (base : ℕ) (x y : Run W) (info : Bytes) (e : Error)
      → x.phase ≡ before
      → y.phase ≡ refused
      → y.aborts ≡ x.aborts
      → transfer_open env info x.session ≡ (done (err e), y.session)
      → Inv base x
      → Inv base y
  unfolding transfer_open
  fails-Inv base x y info e p q a h i = ground arith

  closes-Inv :
      (base : ℕ) (x y : Run W) (e : Option Error)
      → x.phase ≡ opened
      → y.phase ≡ finished
      → y.aborts ≡ x.aborts
      → transfer_close env e x.session ≡ (done tt, y.session)
      → Inv base x
      → Inv base y
  unfolding transfer_close close_transfer get_error_code
  closes-Inv base x y e p q a h i = ground arith

  aborted-Inv :
      (base : ℕ) (x y : Run W) (param : Bytes)
      → y.phase ≡ x.phase
      → y.aborts ≡ suc x.aborts
      → handle_abor env param x.session ≡ (done none, y.session)
      → Inv base x
      → Inv base y
  unfolding handle_abor close_transfer
  aborted-Inv base x y param p a h i = ground arith

  Step-Inv : (base : ℕ) {x y : Run W} → Step env x y → Inv base x → Inv base y
  Step-Inv base {x} {y} (opens info conn p q a h) i = opens-Inv base x y info conn p q a h i
  Step-Inv base {x} {y} (fails info e p q a h) i = fails-Inv base x y info e p q a h i
  Step-Inv base {x} {y} (closes e p q a h) i = closes-Inv base x y e p q a h i
  Step-Inv base {x} {y} (aborted param p a h) i = aborted-Inv base x y param p a h i
  Step-Inv base {x} {y} (world_moves w e) i = ground arith

  Reach-Inv : (base : ℕ) {x y : Run W} → Inv base x → Reach env x y → Inv base y
  Reach-Inv base i here = i
  Reach-Inv base i (next r st) = Step-Inv base st (Reach-Inv base i r)

  -- Whatever the order in which ABOR commands and the sections of a transfer command run, a
  -- transfer that was opened and has ended got exactly one final reply, and each ABOR one; a
  -- transfer that could not be opened got one at most. At the start no transfer is open or aborted.
  pub transfer_replied_once :
      (x y : Run W)
      → x.phase ≡ before
      → x.aborts ≡ 0
      → x.session.client.is_transfer_open ≡ false
      → x.session.client.is_transfer_aborted ≡ false
      → Reach env x y
      → (y.phase ≡ finished → finals y.session.log ≡ finals x.session.log + y.aborts + 1)
        × (y.phase ≡ refused
            → (finals x.session.log + y.aborts ≤ finals y.session.log)
              × (finals y.session.log ≤ finals x.session.log + y.aborts + 1))
  transfer_replied_once x y p a shut live r =
      let start : Inv (finals x.session.log) x = ground arith in
      let end = Reach-Inv (finals x.session.log) start r in
      (end.finished_finals, λ q. (end.refused_low q, end.refused_high q))
