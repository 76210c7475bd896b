-- ===== src/Dirs/Cwd.antt =====
-- The working directory stays a clean absolute path, and how PWD shows it.
use mathlib.Core.Path.{subst}
use mathlib.Core.List.{reverse-cons}
use ftpserverlib.Prelude.{
  ◌⊎◌, reverse-reverse, length-append, ℕ, true, false, not, ◌&&◌, List, [], ◌∷◌, ◌++◌,
  if◌then◌else◌, ◌≡◌, refl, sym, ap, ◌∙◌, arith, reverse, length, take, ◌-◌, Bool-cases, inl, inr,
  All,
}
use ftpserverlib.Text.{Bytes, equal, has_suffix, has_byte, join}
use ftpserverlib.Paths.{dotdot, push, abs_path, is_abs, split_dir, slash}
use ftpserverlib.Paths.Clean.{
  IsCleanAbs, IsName, absolute, All-reverse, IsCleanAbs-is_abs, abs_path-IsCleanAbs,
}
use ftpserverlib.Paths.Fold.{walk-dotdot, push-dotdot}
use ftpserverlib.Paths.Walks.{abs_path-walk}
use ftpserverlib.Text.Compare.{equal_iff}
use ftpserverlib.Paths.Trailing.{split_dir-absolute, join-inner, has_suffix-slash}
use ftpserverlib.Session.{Session, Env}
use ftpserverlib.Dirs.Defs.{handle_cwd, handle_cdup, cdup_target}

take-length : (x y : Bytes) → take (length x) (x ++ y) ≡ x
take-length [] y = refl
take-length (c ∷ x) y = ap (◌∷◌ c) (take-length x y)

-- `parent[0 : len(parent)-1]` without the slash at its end
take-append_one : (x : Bytes) (c : ℕ) → take (length (x ++ (c ∷ [])) - 1) (x ++ (c ∷ [])) ≡ x
take-append_one x c =
    let e : length (x ++ (c ∷ [])) - 1 ≡ length x = omega (arith, length-append x (c ∷ [])) in
    ap (λ n. take n (x ++ (c ∷ []))) e ∙ take-length x (c ∷ [])

not_root : (x : Bytes) (c : ℕ) → equal (c ∷ (x ++ (slash ∷ []))) (slash ∷ []) ≡ false
not_root x c = elim (Bool-cases (equal (c ∷ (x ++ (slash ∷ []))) (slash ∷ []))) [
  | inr n ↦ n
  | inl y ↦ absurd (omega (arith, ap length ((equal_iff _ _).0 y), length-append x (slash ∷ [])))
]

-- A directory with a slash at its end, other than the root, loses the slash.
without_slash : Bytes → Bytes
without_slash parent =
    if not (equal parent (slash ∷ [])) && has_suffix (slash ∷ []) parent
    then take (length parent - 1) parent
    else parent

without_slash-append : (x : Bytes) (c : ℕ) → without_slash ((c ∷ x) ++ (slash ∷ [])) ≡ c ∷ x
unfolding without_slash
without_slash-append x c =
    rw (not_root x c, has_suffix-slash (c ∷ x)) (take-append_one (c ∷ x) slash)

cdup_target-split_dir : (p : Bytes) → cdup_target p ≡ without_slash (split_dir p)
unfolding cdup_target without_slash
cdup_target-split_dir p = refl

-- Where CDUP goes from a directory below the root.
cdup_target-snoc :
    (es : List Bytes) (b : Bytes)
    → All IsName es
    → IsName b
    → cdup_target (absolute (es ++ (b ∷ []))) ≡ absolute es
cdup_target-snoc [] b h hb =
    cdup_target-split_dir (absolute (b ∷ []))
    ∙ ap without_slash (split_dir-absolute [] b hb)
    ∙ unfold without_slash equal join in refl
cdup_target-snoc (e ∷ es) b h hb =
    cdup_target-split_dir (absolute (e ∷ es ++ (b ∷ [])))
    ∙ ap without_slash (split_dir-absolute (e ∷ es) b hb ∙ ap (◌∷◌ slash) (sym (join-inner e es)))
    ∙ without_slash-append (join slash (e ∷ es)) slash

-- What ".." resolves to.
abs_path-dotdot :
    (cs : List Bytes)
    → All IsName cs
    → abs_path (absolute cs) dotdot ≡ absolute (reverse (push true (reverse cs) dotdot))
abs_path-dotdot cs h =
    abs_path-walk cs dotdot h (unfold is_abs in refl)
    ∙ ap (λ k. absolute (reverse k)) (walk-dotdot (reverse cs))

cdup_target-reverse :
    (rb : List Bytes)
    → All IsName rb
    → cdup_target (absolute (reverse rb)) ≡ abs_path (absolute (reverse rb)) dotdot
cdup_target-reverse [] h =
    unfold cdup_target split_dir has_byte equal join in
    refl ∙ sym (abs_path-dotdot [] tt ∙ unfold push equal join in refl)
cdup_target-reverse (b ∷ rb) h =
    ap (λ x. cdup_target (absolute x)) (reverse-cons b rb)
    ∙ cdup_target-snoc (reverse rb) b (All-reverse rb h.1) h.0
    ∙ sym (
        abs_path-dotdot (reverse (b ∷ rb)) (All-reverse (b ∷ rb) h)
        ∙ ap (λ k. absolute (reverse (push true k dotdot))) (reverse-reverse (b ∷ rb))
        ∙ ap (λ k. absolute (reverse k)) (push-dotdot rb b h.0))

-- CDUP goes where CWD would go with "..".
pub cdup_target-abs_path : (p : Bytes) → IsCleanAbs p → cdup_target p ≡ abs_path p dotdot
cdup_target-abs_path p c = rw c.path_is (
    subst (λ x. cdup_target (absolute x) ≡ abs_path (absolute x) dotdot)
      (reverse-reverse c.elements)
      (cdup_target-reverse (reverse c.elements) (All-reverse c.elements c.names)))

module _ {W : Type 0} (env : Env W) where
  pub handle_cwd-path :
      (param : Bytes) (s : Session W)
      → ((handle_cwd env param s).1.client.path ≡ s.client.path)
        ⊎ ((handle_cwd env param s).1.client.path ≡ abs_path s.client.path param)
  unfolding handle_cwd
  handle_cwd-path param s = ground arith

  pub handle_cdup-path :
      (param : Bytes) (s : Session W)
      → ((handle_cdup env param s).1.client.path ≡ s.client.path)
        ⊎ ((handle_cdup env param s).1.client.path ≡ cdup_target s.client.path)
  unfolding handle_cdup
  handle_cdup-path param s = ground arith

  -- CWD and CDUP keep the working directory a clean absolute path, whatever the client asks for
  -- and whatever the driver answers.
  pub handle_cwd-IsCleanAbs :
      (param : Bytes) (s : Session W)
      → IsCleanAbs s.client.path
      → IsCleanAbs (handle_cwd env param s).1.client.path
        × IsCleanAbs (handle_cdup env param s).1.client.path
  handle_cwd-IsCleanAbs param s c = (
    elim (handle_cwd-path param s) [
      | inl same ↦ subst IsCleanAbs (sym same) c
      | inr moved ↦
          subst IsCleanAbs (sym moved)
            (abs_path-IsCleanAbs s.client.path param (IsCleanAbs-is_abs c))
    ],
    elim (handle_cdup-path param s) [
      | inl same ↦ subst IsCleanAbs (sym same) c
      | inr moved ↦
          subst IsCleanAbs (sym (moved ∙ cdup_target-abs_path s.client.path c))
            (abs_path-IsCleanAbs s.client.path dotdot (IsCleanAbs-is_abs c))
    ],
  )
