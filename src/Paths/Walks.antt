-- ===== src/Paths/Walks.antt =====
-- Where absPath leads from a clean working directory.
use mathlib.Core.List.{reverse_aux-append}
use mathlib.Core.Path.{subst}
use ftpserverlib.Prelude.{
  false, List, [], ◌∷◌, ◌++◌, reverse, reverse-reverse, ◌≡◌, refl, sym, ap, ◌∙◌, arith, All,
  All-append, append_assoc, length, length-append,
}
use ftpserverlib.Text.{Bytes, equal, split, join}
use ftpserverlib.Text.Split.{split-append, split-join}
use ftpserverlib.Paths.Defs.{slash, is_abs, abs_path, join_path}
use ftpserverlib.Paths.Clean.{IsName, absolute}
use ftpserverlib.Paths.Fold.{
  walk, inner, ups, All-Free, IsName-Free, walk-slash, walk-nil, walk-inner, walk-ups, clean-walk,
  clean-absolute,
}
use ftpserverlib.Paths.Trailing.{join-inner}

-- No clean path has two slashes in a row.
split_names :
    (bs : List Bytes) (t : Bytes)
    → All IsName bs
    → All IsName (split slash (inner bs ++ (slash ∷ t)))
    → ⊥
unfolding split
split_names [] t h a = unfold equal in cc (a.0)
split_names (b ∷ bs) t h a = split_names bs t h.1 (
    (rw
      (
        append_assoc b (slash ∷ inner bs) (slash ∷ t),
        split-append slash b (inner bs ++ (slash ∷ t)) (IsName-Free b h.0),
      )
      at a).1)

pub absolute-single_slashes :
    (bs es : List Bytes) (t : Bytes)
    → All IsName bs
    → All IsName es
    → absolute es ≡ (slash ∷ inner bs) ++ (slash ∷ t)
    → ⊥
unfolding join
absolute-single_slashes bs [] t h a e =
    omega (arith, ap length e, length-append (inner bs) (slash ∷ t))
absolute-single_slashes bs (d ∷ es) t h a e = split_names bs t h (
    subst (All IsName)
      (sym (split-join slash d es (All-Free (d ∷ es) a)) ∙ ap (λ x. split slash (tail x)) e) a)
  where
    tail : Bytes → Bytes
    tail [] = []
    tail (c ∷ x) = x

-- Where a relative path leads: Clean's walk from the elements of the working directory.
pub abs_path-walk :
    (cs : List Bytes) (r : Bytes)
    → All IsName cs
    → is_abs r ≡ false
    → abs_path (absolute cs) r ≡ absolute (reverse (walk (reverse cs) r))
unfolding abs_path join_path join
abs_path-walk cs [] h f = rw f (
    clean-absolute cs h
    ∙ ap absolute (sym (reverse-reverse cs) ∙ ap reverse (sym (walk-nil (reverse cs)))))
abs_path-walk [] (c ∷ q) h f = rw f (
    clean-walk (absolute [] ++ (slash ∷ c ∷ q)) (unfold is_abs in refl)
    ∙ ap (λ k. absolute (reverse k)) (walk-slash [] (slash ∷ c ∷ q) ∙ walk-slash [] (c ∷ q)))
abs_path-walk (e ∷ es) (c ∷ q) h f = rw f (
    clean-walk (absolute (e ∷ es) ++ (slash ∷ c ∷ q)) (unfold is_abs in refl)
    ∙ ap (λ k. absolute (reverse k))
        (walk-slash [] (join slash (e ∷ es) ++ (slash ∷ c ∷ q))
          ∙ ap (walk []) (
              sym (append_assoc (join slash (e ∷ es)) (slash ∷ []) (c ∷ q))
              ∙ ap (λ x. x ++ (c ∷ q)) (join-inner e es))
          ∙ walk-inner (e ∷ es) [] (c ∷ q) h))

ups-not_abs : (ds : List Bytes) (x : Bytes) → is_abs x ≡ false → is_abs (ups ds ++ x) ≡ false
unfolding is_abs
ups-not_abs [] x h = h
ups-not_abs (d ∷ ds) x h = refl

-- One "../" for each element below `bs`, and then a path from there.
pub abs_path-ups :
    (bs ds : List Bytes) (x : Bytes)
    → All IsName bs
    → All IsName ds
    → is_abs x ≡ false
    → abs_path (absolute (bs ++ ds)) (ups ds ++ x) ≡ absolute (reverse (walk (reverse bs) x))
abs_path-ups bs ds x hb hd f =
    abs_path-walk (bs ++ ds) (ups ds ++ x) (All-append IsName bs ds hb hd) (ups-not_abs ds x f)
    ∙ ap (λ k. absolute (reverse (walk k (ups ds ++ x)))) (reverse_aux-append bs ds [])
    ∙ ap (λ k. absolute (reverse k)) (walk-ups ds (reverse bs) x hd)
