-- ===== src/Session/Monad.antt =====
-- The methods of clientHandler as state passing. A method changes the client and the world, writes
-- to the control connection, and returns or panics.
use ftpserverlib.Prelude.{
  ◌≡◌, refl, ◌⊎◌, inl, inr, ℕ, Bool, true, false, List, [], ◌∷◌, Option, none, some,
}
use ftpserverlib.Text.{Bytes, codes}
use ftpserverlib.Errors.{Error}
use ftpserverlib.Session.Driver.{ClientDriver, Env, Call, Callback}
use ftpserverlib.Session.State.{Client, apply_context}

-- What is written: by writeMessage, by writeLine, or straight to the writer.
pub data Event : Type 0 where
  message : ℕ → Bytes → Event
  line : Bytes → Event
  raw : Bytes → Event

-- The last write stands first in the log.
pub record Session (W : Type 0) : Type 0 where
  pub client : Client
  pub world : W
  pub log : List Event

pub data Outcome (A : Type 0) : Type 0 where
  done : A → Outcome A
  panic : Bytes → Outcome A

pub Outcome-cases :
    {A : Type 0} (o : Outcome A) → ((a : A) × (o ≡ done a)) ⊎ ((text : Bytes) × (o ≡ panic text))
Outcome-cases (done a) = inl (a, refl)
Outcome-cases (panic text) = inr (text, refl)

abbrev pub M : Type 0 → Type 0 → Type 0
M W A = Session W → Outcome A × Session W

module _ {W A : Type 0} where
  abbrev pub pure : A → M W A
  pure a s = (done a, s)

  abbrev pub panics : Bytes → M W A
  panics text s = (panic text, s)

  abbrev pub gets : (Client → A) → M W A
  gets f s = (done (f s.client), s)

  -- A call of a driver or of the network.
  abbrev pub call : Call W A → M W A
  call f s = let (a, w) = f s.world in (done a, record s { world = w })

  -- The same, with the ClientContext at hand.
  abbrev pub callback : Env W → Callback W A → M W A
  callback env f s =
      let (a, calls, w) = f s.world in
      let (c, w') = apply_context env calls s.client w in
      (done a, record s { world = w'; client = c })

module _ {W A B : Type 0} where
  abbrev pub continue : Outcome A → (A → M W B) → M W B
  continue (done a) f s = f a s
  continue (panic text) f s = (panic text, s)

  infixl 5 ◌>>=◌ ◌>>◌
  abbrev pub ◌>>=◌ : M W A → (A → M W B) → M W B
  ◌>>=◌ m f s = let (r, s') = m s in continue r f s'

  abbrev pub ◌>>◌ : M W A → M W B → M W B
  m >> k = m >>= λ _. k

module _ {W A : Type 0} where
  -- A test between two methods. It computes once the state is there.
  infix 1 when◌then◌else◌
  abbrev pub when◌then◌else◌ : Bool → M W A → M W A → M W A
  when◌then◌else◌ true m n s = m s
  when◌then◌else◌ false m n s = n s

module _ {W : Type 0} where
  abbrev pub modify : (Client → Client) → M W (Unit {0})
  modify f s = (done tt, record s { client = f s.client })

  abbrev pub reply : ℕ → Bytes → M W (Unit {0})
  reply code text s = (done tt, record s { log = message code text ∷ s.log })

  abbrev pub write_line : Bytes → M W (Unit {0})
  write_line text s = (done tt, record s { log = line text ∷ s.log })

  abbrev pub write_raw : Bytes → M W (Unit {0})
  write_raw text s = (done tt, record s { log = raw text ∷ s.log })

  -- disconnect
  abbrev pub disconnect : M W (Unit {0})
  disconnect = modify (λ c. record c { closed = true })

  abbrev pub driver_of : Env W → Option ℕ → M W (ClientDriver W)
  driver_of env none =
      panics (codes "runtime error: invalid memory address or nil pointer dereference")
  driver_of env (some n) = pure (env.main.driver n)

  -- A method call on c.driver; a nil interface panics.
  abbrev pub get_driver : Env W → M W (ClientDriver W)
  get_driver env s = driver_of env s.client.driver s

  -- What an error that may be nil does to the rest.
  abbrev pub when_error : {A : Type 0} → Option Error → (Error → M W A) → M W A → M W A
  when_error none f m = m
  when_error (some e) f m = f e

-- The codes of the replies in a log, the last one first.
abbrev pub reply_codes : List Event → List ℕ
reply_codes [] = []
reply_codes (message code _ ∷ log) = code ∷ reply_codes log
reply_codes (line _ ∷ log) = reply_codes log
reply_codes (raw _ ∷ log) = reply_codes log
