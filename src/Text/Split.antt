-- ===== src/Text/Split.antt =====
-- Split and Join undo one another, and what SplitN finds is in front of the separator.
use ftpserverlib.Prelude.{
  ℕ, false, List, [], ◌∷◌, ◌++◌, ◌≡◌, refl, ap, ◌∙◌, inl, inr, arith, ◌==◌, Bool-cases, All, some,
}
use ftpserverlib.Text.Defs.{Bytes, has_byte, split, cons_head, join, cut, split_n}

abbrev pub Free : ℕ → Bytes → Type 0
Free b s = has_byte b s ≡ false

-- A separator behind a text that has none ends its first piece.
pub split-append : (b : ℕ) (x s : Bytes) → Free b x → split b (x ++ (b ∷ s)) ≡ x ∷ split b s
unfolding has_byte split
split-append b [] s h = ground arith
split-append b (c ∷ x) s h = ground (arith, split-append b x s)

cut-append : (b : ℕ) (x s : Bytes) → Free b x → cut b (x ++ (b ∷ s)) ≡ some (x, s)
unfolding has_byte cut
cut-append b [] s h = ground arith
cut-append b (c ∷ x) s h = ground (arith, cut-append b x s)

-- The same for SplitN with two pieces.
pub split_n-append : (b : ℕ) (x s : Bytes) → Free b x → split_n 2 b (x ++ (b ∷ s)) ≡ x ∷ s ∷ []
unfolding split_n
split_n-append b x s h = rw (split_n, cut-append b x s h) refl

pub split_whole : (b : ℕ) (x : Bytes) → Free b x → split b x ≡ x ∷ []
unfolding has_byte split
split_whole b [] h = refl
split_whole b (c ∷ x) h = ground (arith, split_whole b x)

pub split-join :
    (b : ℕ) (x : Bytes) (r : List Bytes) → All (Free b) (x ∷ r) → split b (join b (x ∷ r)) ≡ x ∷ r
unfolding join
split-join b x [] h = split_whole b x h.0
split-join b x (y ∷ r) h = split-append b x (join b (y ∷ r)) h.0 ∙ ap (◌∷◌ x) (split-join b y r h.1)

cons_head-Free :
    (b c : ℕ) (r : List Bytes) → (c == b) ≡ false → All (Free b) r → All (Free b) (cons_head c r)
unfolding has_byte
cons_head-Free b c [] h a = ground arith
cons_head-Free b c (e ∷ r) h a = ground arith

-- No piece holds the separator.
pub split-Free : (b : ℕ) (p : Bytes) → All (Free b) (split b p)
unfolding split has_byte
split-Free b [] = (refl, tt)
split-Free b (c ∷ p) = elim (Bool-cases (c == b)) [
  | inl e ↦ rw e (refl, split-Free b p)
  | inr n ↦ rw n (cons_head-Free b c (split b p) n (split-Free b p))
]
