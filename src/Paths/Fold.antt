-- ===== src/Paths/Fold.antt =====
-- How path.Clean walks a path: one element at a time over the elements kept so far.
use mathlib.Core.List.{reverse_aux}
use ftpserverlib.Prelude.{
  true, List, [], ◌∷◌, ◌++◌, foldl, reverse, reverse-reverse, ◌≡◌, refl, ap, ◌∙◌, arith, All,
  append_assoc,
}
use ftpserverlib.Text.{Bytes, equal, has_byte, split, join}
use ftpserverlib.Text.Split.{Free, split-append, split_whole, split-join}
use ftpserverlib.Paths.Defs.{slash, dotdot, is_abs, push, go_up, clean_elements, clean, up}
use ftpserverlib.Paths.Clean.{IsName, absolute}

-- Clean's walk over the elements of a rooted path, from those kept so far.
pub walk : List Bytes → Bytes → List Bytes
walk kept p = foldl (push true) kept (split slash p)

-- The elements of a directory, each with a slash behind it.
abbrev pub inner : List Bytes → Bytes
inner [] = []
inner (e ∷ es) = e ++ (slash ∷ inner es)

pub IsName-Free : (e : Bytes) → IsName e → Free slash e
IsName-Free e h = ground arith

pub All-Free : (es : List Bytes) → All IsName es → All (Free slash) es
All-Free [] h = tt
All-Free (e ∷ es) h = (IsName-Free e h.0, All-Free es h.1)

push-name : (kept : List Bytes) (e : Bytes) → IsName e → push true kept e ≡ e ∷ kept
unfolding push
push-name kept e h = ground arith

push-nil : (kept : List Bytes) → push true kept [] ≡ kept
unfolding push equal
push-nil kept = refl

pub push-dotdot : (kept : List Bytes) (e : Bytes) → IsName e → push true (e ∷ kept) dotdot ≡ kept
unfolding push go_up equal
push-dotdot kept e h = ground arith

pub walk-slash : (kept : List Bytes) (t : Bytes) → walk kept (slash ∷ t) ≡ walk kept t
unfolding walk split
walk-slash kept t = rw push-nil

pub walk-nil : (kept : List Bytes) → walk kept [] ≡ kept
unfolding walk split
walk-nil kept = push-nil kept

walk-append :
    (kept : List Bytes) (e t : Bytes)
    → Free slash e
    → walk kept (e ++ (slash ∷ t)) ≡ walk (push true kept e) t
unfolding walk
walk-append kept e t h = rw (split-append slash e t h)

walk-name :
    (kept : List Bytes) (e t : Bytes) → IsName e → walk kept (e ++ (slash ∷ t)) ≡ walk (e ∷ kept) t
walk-name kept e t h =
    walk-append kept e t (IsName-Free e h) ∙ ap (λ k. walk k t) (push-name kept e h)

walk-up : (kept : List Bytes) (e t : Bytes) → IsName e → walk (e ∷ kept) (up ++ t) ≡ walk kept t
unfolding has_byte
walk-up kept e t h =
    walk-append (e ∷ kept) dotdot t refl ∙ ap (λ k. walk k t) (push-dotdot kept e h)

pub walk-inner :
    (es kept : List Bytes) (s : Bytes)
    → All IsName es
    → walk kept (inner es ++ s) ≡ walk (reverse_aux es kept) s
walk-inner [] kept s h = refl
walk-inner (e ∷ es) kept s h =
    ap (walk kept) (append_assoc e (slash ∷ inner es) s)
    ∙ walk-name kept e (inner es ++ s) h.0
    ∙ walk-inner es (e ∷ kept) s h.1

foldl-push :
    (es kept : List Bytes) → All IsName es → foldl (push true) kept es ≡ reverse_aux es kept
foldl-push [] kept h = refl
foldl-push (e ∷ es) kept h = rw (push-name kept e h.0) (foldl-push es (e ∷ kept) h.1)

pub walk-join :
    (es kept : List Bytes) → All IsName es → walk kept (join slash es) ≡ reverse_aux es kept
unfolding join
walk-join [] kept h = walk-nil kept
walk-join (e ∷ es) kept h =
    unfold walk in rw (split-join slash e es (All-Free (e ∷ es) h)) (foldl-push (e ∷ es) kept h)

-- "../" for each of these elements.
abbrev pub ups : List Bytes → Bytes
ups [] = []
ups (d ∷ ds) = up ++ ups ds

pub up-ups : (ds : List Bytes) (s : Bytes) → up ++ (ups ds ++ s) ≡ ups ds ++ (up ++ s)
up-ups [] s = refl
up-ups (d ∷ ds) s = ap (λ x. up ++ x) (up-ups ds s)

-- As many "../" as there are elements on top take them off.
pub walk-ups :
    (ds kept : List Bytes) (s : Bytes)
    → All IsName ds
    → walk (reverse_aux ds kept) (ups ds ++ s) ≡ walk kept s
walk-ups [] kept s h = refl
walk-ups (d ∷ ds) kept s h =
    ap (walk (reverse_aux ds (d ∷ kept))) (up-ups ds s)
    ∙ walk-ups ds (d ∷ kept) (up ++ s) h.1
    ∙ walk-up kept d s h.0

pub clean-walk : (p : Bytes) → is_abs p ≡ true → clean p ≡ absolute (reverse (walk [] p))
unfolding clean clean_elements walk
clean-walk p h = rw h

pub clean-absolute : (es : List Bytes) → All IsName es → clean (absolute es) ≡ absolute es
clean-absolute es h =
    clean-walk (absolute es) (unfold is_abs in refl)
    ∙ ap (λ k. absolute (reverse k)) (walk-slash [] (join slash es) ∙ walk-join es [] h)
    ∙ ap absolute (reverse-reverse es)

-- The walk over "..", which drops the element on top, if there is one.
pub walk-dotdot : (kept : List Bytes) → walk kept dotdot ≡ push true kept dotdot
unfolding walk has_byte
walk-dotdot kept = rw (split_whole slash dotdot refl)
