-- ===== src/Paths/Trailing.antt =====
-- Directories written with a slash behind them, and path.Dir of a clean absolute path.
use mathlib.Core.List.{reverse_aux, reverse_aux-append}
use ftpserverlib.Prelude.{
  ℕ, true, false, List, [], ◌∷◌, ◌++◌, reverse, reverse-reverse, ◌≡◌, refl, sym, ap, ◌∙◌, arith,
  ◌==◌, All, append_assoc, append-nil,
}
use ftpserverlib.Text.{Bytes, equal, has_byte, has_prefix, has_suffix, join}
use ftpserverlib.Text.Split.{Free}
use ftpserverlib.Paths.Defs.{slash, is_abs, clean, split_dir, dir, with_slash}
use ftpserverlib.Paths.Clean.{IsName, absolute}
use ftpserverlib.Paths.Fold.{walk, inner, IsName-Free, walk-slash, walk-nil, walk-inner, clean-walk}

reverse_aux-Free :
    (y : Bytes) (c : ℕ) (r : Bytes)
    → (c == slash) ≡ false
    → Free slash y
    → has_prefix (slash ∷ []) (reverse_aux y (c ∷ r)) ≡ false
unfolding has_prefix has_byte
reverse_aux-Free [] c r h f = ground arith
reverse_aux-Free (d ∷ y) c r h f = reverse_aux-Free y d (c ∷ r) (ground arith) (ground arith)

has_suffix-name : (s e : Bytes) → IsName e → has_suffix (slash ∷ []) (s ++ e) ≡ false
unfolding has_suffix has_byte equal
has_suffix-name s [] h = cc
has_suffix-name s (c ∷ y) h =
    rw (reverse_aux-append s (c ∷ y) [])
      (reverse_aux-Free y c (reverse_aux s []) (ground arith) (ground arith))

has_suffix-join :
    (s e : Bytes) (es : List Bytes)
    → All IsName (e ∷ es)
    → has_suffix (slash ∷ []) (s ++ join slash (e ∷ es)) ≡ false
unfolding join
has_suffix-join s e [] h = has_suffix-name s e h.0
has_suffix-join s e (d ∷ es) h =
    ap (has_suffix (slash ∷ [])) (
      ap (λ x. s ++ x) (sym (append_assoc e (slash ∷ []) (join slash (d ∷ es))))
      ∙ sym (append_assoc s (e ++ (slash ∷ [])) (join slash (d ∷ es))))
    ∙ has_suffix-join (s ++ (e ++ (slash ∷ []))) d es h.1

pub join-inner :
    (e : Bytes) (es : List Bytes) → join slash (e ∷ es) ++ (slash ∷ []) ≡ inner (e ∷ es)
unfolding join
join-inner e [] = refl
join-inner e (d ∷ es) =
    append_assoc e (slash ∷ join slash (d ∷ es)) (slash ∷ [])
    ∙ ap (λ x. e ++ (slash ∷ x)) (join-inner d es)

-- A clean directory gets its trailing slash, and the root keeps the one it has.
pub with_slash-absolute :
    (es : List Bytes) → All IsName es → with_slash (absolute es) ≡ slash ∷ inner es
unfolding with_slash
with_slash-absolute [] h = unfold has_suffix has_prefix join in refl
with_slash-absolute (e ∷ es) h =
    rw (has_suffix-join (slash ∷ []) e es h) (ap (◌∷◌ slash) (join-inner e es))

pub clean-inner : (es : List Bytes) → All IsName es → clean (slash ∷ inner es) ≡ absolute es
clean-inner es h =
    clean-walk (slash ∷ inner es) (unfold is_abs in refl)
    ∙ ap (λ k. absolute (reverse k))
        (walk-slash [] (inner es)
          ∙ ap (walk []) (sym (append-nil (inner es)))
          ∙ walk-inner es [] [] h
          ∙ walk-nil (reverse es))
    ∙ ap absolute (reverse-reverse es)

has_byte-append : (p q : Bytes) → has_byte slash q ≡ true → has_byte slash (p ++ q) ≡ true
unfolding has_byte
has_byte-append [] q h = h
has_byte-append (c ∷ p) q h = ground (arith, has_byte-append p q h)

split_dir-append : (p q : Bytes) → has_byte slash q ≡ true → split_dir (p ++ q) ≡ p ++ split_dir q
unfolding split_dir
split_dir-append [] q h = refl
split_dir-append (c ∷ p) q h =
    rw (has_byte-append (c ∷ p) q h) (ap (◌∷◌ c) (split_dir-append p q h))

split_dir-Free : (b : Bytes) → Free slash b → split_dir b ≡ []
unfolding split_dir
split_dir-Free [] h = refl
split_dir-Free (c ∷ b) h = rw h

split_dir-slash : (q : Bytes) → split_dir (slash ∷ q) ≡ slash ∷ split_dir q
unfolding split_dir has_byte
split_dir-slash q = refl

split_dir-inner :
    (es : List Bytes) (b : Bytes)
    → Free slash b
    → split_dir (slash ∷ (inner es ++ b)) ≡ slash ∷ inner es
split_dir-inner [] b f = split_dir-slash b ∙ ap (◌∷◌ slash) (split_dir-Free b f)
split_dir-inner (e ∷ es) b f =
    ap (λ x. split_dir (slash ∷ x)) (append_assoc e (slash ∷ inner es) b)
    ∙ split_dir-append (slash ∷ e) (slash ∷ (inner es ++ b)) (unfold has_byte in refl)
    ∙ ap (λ x. slash ∷ (e ++ x)) (split_dir-inner es b f)

join-snoc : (es : List Bytes) (b : Bytes) → join slash (es ++ (b ∷ [])) ≡ inner es ++ b
unfolding join
join-snoc [] b = refl
join-snoc (e ∷ []) b = sym (append_assoc e (slash ∷ []) b)
join-snoc (e ∷ d ∷ es) b =
    ap (λ x. e ++ (slash ∷ x)) (join-snoc (d ∷ es) b)
    ∙ sym (append_assoc e (slash ∷ inner (d ∷ es)) b)

-- The directory that path.Split finds in front of the last element.
pub split_dir-absolute :
    (es : List Bytes) (b : Bytes)
    → IsName b
    → split_dir (absolute (es ++ (b ∷ []))) ≡ slash ∷ inner es
split_dir-absolute es b h =
    ap (λ x. split_dir (slash ∷ x)) (join-snoc es b) ∙ split_dir-inner es b (IsName-Free b h)

pub dir-absolute :
    (es : List Bytes) (b : Bytes)
    → All IsName es
    → IsName b
    → dir (absolute (es ++ (b ∷ []))) ≡ absolute es
unfolding dir
dir-absolute es b h hb = ap clean (split_dir-absolute es b hb) ∙ clean-inner es h

pub has_suffix-slash : (x : Bytes) → has_suffix (slash ∷ []) (x ++ (slash ∷ [])) ≡ true
unfolding has_suffix has_prefix
has_suffix-slash x = rw (reverse_aux-append x (slash ∷ []) [])
