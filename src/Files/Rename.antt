-- ===== src/Files/Rename.antt =====
-- RNFR and RNTO in a row.
use ftpserverlib.Prelude.{ℕ, false, [], ◌∷◌, none, some, ◌≡◌, refl, arith}
use ftpserverlib.Text.{Bytes, equal}
use ftpserverlib.Paths.{abs_path, is_abs}
use ftpserverlib.Paths.Clean.{IsCleanAbs, abs_path-IsCleanAbs, IsCleanAbs-is_abs}
use ftpserverlib.Session.{Env, Session, ok, FileInfo, reply_codes}
use ftpserverlib.Files.Meta.{handle_rnfr, handle_rnto}

not_empty : (p : Bytes) → IsCleanAbs p → equal p [] ≡ false
not_empty [] c = let a = IsCleanAbs-is_abs c in unfold is_abs in cc
not_empty (x ∷ p) c = unfold equal in refl

module _ {W : Type 0} (env : Env W) where
  -- RNTO renames the path that the last RNFR named, both resolved from the working directory, and
  -- only once: where the driver renamed it, the name is forgotten, so that a second RNTO is
  -- answered with 503 and changes nothing.
  pub handle_rnto-renames :
      (from to again : Bytes) (n : ℕ) (s : Session W) (info : FileInfo) (w : W)
      → s.client.driver ≡ some n
      → IsCleanAbs s.client.path
      → (env.main.driver n).stat (abs_path s.client.path from) s.world ≡ (ok info, w)
      → let (e, w') =
          (env.main.driver n).rename (abs_path s.client.path from) (abs_path s.client.path to) w in
        let s' = (handle_rnto env to (handle_rnfr env from s).1).1 in
        (s'.world ≡ w')
        × (e ≡ none
            → (s'.client.ctx_rnfr ≡ [])
              × ((handle_rnto env again s').1.world ≡ w')
              × (reply_codes (handle_rnto env again s').1.log ≡ 503 ∷ reply_codes s'.log))
  unfolding handle_rnfr handle_rnto equal
  handle_rnto-renames from to again n s info w d c found =
      let filled =
        not_empty (abs_path s.client.path from)
          (abs_path-IsCleanAbs s.client.path from (IsCleanAbs-is_abs c)) in
      (ground arith, λ no_error. ground arith)
