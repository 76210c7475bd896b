-- ===== src/Session/Leaves.antt =====
-- What a method leaves of the client, along a relation between the client before and after.
use ftpserverlib.Prelude.{ℕ, ◌≡◌, refl, ◌∙◌, Option, none, some}
use ftpserverlib.Session.Driver.{ClientDriver, Env}
use ftpserverlib.Session.State.{Client}
use ftpserverlib.Session.Monad.{
  Session, Outcome, done, panic, M, ◌>>=◌, continue, get_driver, driver_of,
}

-- A relation that holds of no change, and of one change after another.
pub record IsFrame (R : Client → Client → Type 0) : Type 0 where
  pub none_changed : (c : Client) → R c c
  pub in_turn : (c c' c'' : Client) → R c c' → R c' c'' → R c c''

module _ {W : Type 0} (R : Client → Client → Type 0) where
  pub record Leaves {A : Type 0} (m : M W A) : Type 0 where
    pub at : (s : Session W) → R s.client (m s).1.client

  continue-Leaves :
      {A B : Type 0} (frame : IsFrame R) (c : Client) (r : Outcome A) (k : A → M W B)
      (s : Session W)
      → R c s.client
      → ((a : A) → Leaves (k a))
      → R c (continue r k s).1.client
  continue-Leaves frame c (done a) k s before after =
      frame.in_turn c s.client (k a s).1.client before ((after a).at s)
  continue-Leaves frame c (panic text) k s before after = before

  pub bind-Leaves :
      {A B : Type 0} (frame : IsFrame R) (m : M W A) (k : A → M W B)
      → Leaves m
      → ((a : A) → Leaves (k a))
      → Leaves (m >>= k)
  bind-Leaves frame m k first rest = record {
    at = λ s. continue-Leaves frame s.client (m s).0 k (m s).1 (first.at s) rest;
  }

  driver_of-Leaves :
      {A : Type 0} (frame : IsFrame R) (env : Env W) (k : ClientDriver W → M W A)
      → ((n : ℕ) → Leaves (k (env.main.driver n)))
      → (o : Option ℕ) → Leaves (driver_of env o >>= k)
  driver_of-Leaves frame env k h none = record { at = λ s. frame.none_changed s.client }
  driver_of-Leaves frame env k h (some n) = record { at = λ s. (h n).at s }

  -- what calls the driver of the client
  pub get_driver-Leaves :
      {A : Type 0} (frame : IsFrame R) (env : Env W) (k : ClientDriver W → M W A)
      → ((n : ℕ) → Leaves (k (env.main.driver n)))
      → Leaves (get_driver env >>= k)
  get_driver-Leaves frame env k h = record {
    at = λ s. (driver_of-Leaves frame env k h s.client.driver).at s;
  }

abbrev pub Same : Client → Client → Type 0
Same c c' = (c'.driver ≡ c.driver) × (c'.user ≡ c.user) × (c'.path ≡ c.path)

pub Same-IsFrame : IsFrame Same
Same-IsFrame = record {
  none_changed = λ c. (refl, refl, refl);
  in_turn = λ c c' c'' (d, u, p) (d', u', p'). (d' ∙ d, u' ∙ u, p' ∙ p);
}

pub Same-Leaves :
    {W A : Type 0} (R : Client → Client → Type 0) (m : M W A)
    → ((c c' : Client) → Same c c' → R c c')
    → Leaves Same m
    → Leaves R m
Same-Leaves R m of_same same = record { at = λ s. of_same s.client (m s).1.client (same.at s) }
