-- ===== src/Paths/Relative.antt =====
-- getRelativePath answers a path that absPath resolves back to the one it was asked for.
use mathlib.Core.List.{reverse_aux, reverse-cons}
use mathlib.Core.Path.{subst}
use ftpserverlib.Prelude.{
  ℕ, zero, suc, ◌<◌, ◌≤◌, ◌+◌, List, [], ◌∷◌, reverse, reverse-reverse, ◌≡◌, sym, ap, ◌∙◌, arith,
  All, append-nil, some, length, length-append,
}
use ftpserverlib.Text.{Bytes, equal, join}
use ftpserverlib.Paths.Defs.{slash, abs_path, get_relative_path}
use ftpserverlib.Paths.Clean.{IsName, IsCleanAbs, absolute, All-reverse}
use ftpserverlib.Paths.Finds.{Finds, Finds-root, Finds-step}

-- The rounds of the loop, with the elements of the base in reverse, and those that the rounds
-- before took off it in `ds`.
loop-abs_path :
    (fuel : ℕ) (rb ds is : List Bytes)
    → All IsName rb
    → All IsName ds
    → All IsName is
    → length rb < fuel
    → Finds fuel (reverse rb) ds is
loop-abs_path zero rb ds is hb hd hi lt = absurd (omega arith)
loop-abs_path (suc fuel) [] ds is hb hd hi lt = Finds-root fuel ds is hd hi
loop-abs_path (suc fuel) (b ∷ rb) ds is hb hd hi lt =
    subst (λ x. Finds (suc fuel) x ds is) (sym (reverse-cons b rb))
      (Finds-step fuel (reverse rb) ds is b (All-reverse rb hb.1) hb.0 hd hi
        (loop-abs_path fuel rb (b ∷ ds) is hb.1 (hb.0, hd) hi (omega arith)))

length-reverse_aux : (es ks : List Bytes) → length (reverse_aux es ks) ≡ length es + length ks
length-reverse_aux [] ks = omega arith
length-reverse_aux (e ∷ es) ks = omega (arith, length-reverse_aux es (e ∷ ks))

length-join : (es : List Bytes) → All IsName es → length es ≤ length (join slash es) + 1
unfolding join equal
length-join [] h = omega arith
length-join (e ∷ []) h = omega arith
length-join (e ∷ d ∷ es) h =
    omega (arith, length-append e (slash ∷ join slash (d ∷ es)), length-join (d ∷ es) h.1)

absolute-Finds :
    (cs is : List Bytes)
    → All IsName cs
    → All IsName is
    → Finds (suc (length (absolute cs))) cs [] is
absolute-Finds cs is hc hi =
    subst (λ x. Finds (suc (length (absolute cs))) x [] is) (reverse-reverse cs)
      (loop-abs_path (suc (length (absolute cs))) (reverse cs) [] is (All-reverse cs hc) tt hi
        (omega (arith, length-reverse_aux cs [], length-join cs hc)))

-- From a clean working directory, getRelativePath ends, and the path that it answers for a clean
-- absolute path is one that absPath resolves to that path again.
pub get_relative_path-abs_path :
    (cwd input : Bytes)
    → IsCleanAbs cwd
    → IsCleanAbs input
    → (r : Bytes) × (get_relative_path cwd input ≡ some r) × (abs_path cwd r ≡ input)
unfolding get_relative_path
get_relative_path-abs_path cwd input c i =
    let (r, found, leads) = absolute-Finds c.elements i.elements c.names i.names in
    rw (c.path_is, i.path_is)
      (r, found, ap (λ x. abs_path (absolute x) r) (sym (append-nil c.elements)) ∙ leads)
