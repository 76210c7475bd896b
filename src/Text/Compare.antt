-- ===== src/Text/Compare.antt =====
-- What the comparisons of texts decide.
use ftpserverlib.Prelude.{true, [], ◌∷◌, ◌++◌, ◌≡◌, refl, ◌↔◌, arith}
use ftpserverlib.Text.Defs.{Bytes, equal, has_prefix, trim_prefix}

pub equal_iff : (s t : Bytes) → (equal s t ≡ true) ↔ (s ≡ t)
unfolding equal
equal_iff [] [] = ground arith
equal_iff [] (d ∷ t) = ground arith
equal_iff (c ∷ s) [] = ground arith
equal_iff (c ∷ s) (d ∷ t) = let rest = equal_iff s t in ground arith

pub equal_refl : (a : Bytes) → equal a a ≡ true
equal_refl a = (equal_iff a a).1 refl

pub has_prefix-append : (p s : Bytes) → has_prefix p (p ++ s) ≡ true
unfolding has_prefix
has_prefix-append [] s = refl
has_prefix-append (x ∷ p) s = ground (arith, has_prefix-append p s)

pub append-trim_prefix : (p s : Bytes) → has_prefix p s ≡ true → p ++ trim_prefix p s ≡ s
unfolding has_prefix trim_prefix
append-trim_prefix [] s h = refl
append-trim_prefix (x ∷ p) [] h = cc
append-trim_prefix (x ∷ p) (y ∷ s) h = ground (arith, append-trim_prefix p s)

pub trim_prefix-append : (p s : Bytes) → trim_prefix p (p ++ s) ≡ s
unfolding trim_prefix
trim_prefix-append [] s = refl
trim_prefix-append (x ∷ p) s = trim_prefix-append p s
