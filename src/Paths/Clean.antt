-- ===== src/Paths/Clean.antt =====
-- Clean absolute paths, and that every path the server resolves is one.
use ftpserverlib.Prelude.{
  Bool, true, not, ◌&&◌, List, [], ◌∷◌, ◌++◌, reverse, foldl, ◌≡◌, arith, Bool-cases, All,
  All-append, inl, inr,
}
use mathlib.Core.List.{reverse-cons}
use ftpserverlib.Text.{Bytes, equal, has_byte, split, join}
use ftpserverlib.Text.Split.{Free, split-Free}
use ftpserverlib.Paths.Defs.{
  slash, dot, dotdot, is_abs, push, go_up, clean_elements, clean, join_path, abs_path,
}

-- An element of a clean path: not empty, not "." or "..", and with no slash in it.
abbrev pub is_name : Bytes → Bool
is_name e =
    not (equal e []) && (not (equal e dot) && (not (equal e dotdot) && not (has_byte slash e)))

abbrev pub IsName : Bytes → Type 0
IsName e = is_name e ≡ true

-- The clean absolute path of its elements.
abbrev pub absolute : List Bytes → Bytes
absolute es = slash ∷ join slash es

pub record IsCleanAbs (p : Bytes) : Type 0 where
  pub elements : List Bytes
  pub names : All IsName elements
  pub path_is : p ≡ absolute elements

go_up-IsName : (kept : List Bytes) → All IsName kept → All IsName (go_up true kept)
unfolding go_up
go_up-IsName [] h = tt
go_up-IsName (t ∷ kept) h = ground arith

push-IsName :
    (kept : List Bytes) (e : Bytes) → Free slash e → All IsName kept → All IsName (push true kept e)
unfolding push
push-IsName kept e f h = ground (arith, go_up-IsName kept h)

foldl-push-IsName :
    (es kept : List Bytes)
    → All (Free slash) es
    → All IsName kept
    → All IsName (foldl (push true) kept es)
foldl-push-IsName [] kept f h = h
foldl-push-IsName (e ∷ es) kept f h =
    foldl-push-IsName es (push true kept e) f.1 (push-IsName kept e f.0 h)

pub All-reverse : (es : List Bytes) → All IsName es → All IsName (reverse es)
All-reverse [] h = tt
All-reverse (e ∷ es) h =
    rw reverse-cons (All-append IsName (reverse es) (e ∷ []) (All-reverse es h.1) (h.0, tt))

pub clean_elements-IsName : (p : Bytes) → All IsName (clean_elements true p)
unfolding clean_elements
clean_elements-IsName p =
    All-reverse (foldl (push true) [] (split slash p))
      (foldl-push-IsName (split slash p) [] (split-Free slash p) tt)

pub clean-IsCleanAbs : (p : Bytes) → is_abs p ≡ true → IsCleanAbs (clean p)
unfolding clean
clean-IsCleanAbs p h = record {
  elements = clean_elements true p;
  names = clean_elements-IsName p;
  path_is = rw h;
}

-- Whatever a client names, the server resolves it to a clean absolute path, which cannot leave the
-- root, as long as the working directory is absolute.
pub abs_path-IsCleanAbs : (cwd p : Bytes) → is_abs cwd ≡ true → IsCleanAbs (abs_path cwd p)
unfolding abs_path join_path
abs_path-IsCleanAbs [] p h = unfold is_abs in cc
abs_path-IsCleanAbs (b ∷ cwd) [] h = unfold is_abs in clean-IsCleanAbs (b ∷ cwd) h
abs_path-IsCleanAbs (b ∷ cwd) (c ∷ p) h = elim (Bool-cases (is_abs (c ∷ p))) [
  | inl e ↦ rw e (clean-IsCleanAbs (c ∷ p) e)
  | inr n ↦ rw n (clean-IsCleanAbs ((b ∷ cwd) ++ (slash ∷ c ∷ p)) (unfold is_abs in h))
]

pub IsCleanAbs-is_abs : {p : Bytes} → IsCleanAbs p → is_abs p ≡ true
unfolding is_abs
IsCleanAbs-is_abs c = rw c.path_is
