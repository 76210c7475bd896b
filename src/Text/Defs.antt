-- ===== src/Text/Defs.antt =====
-- strings.HasPrefix, HasSuffix, TrimPrefix, Contains, ReplaceAll, ToUpper, ToLower, Split, SplitN,
-- Join, and the `==` of strings.
use Prim.Native.Char.{code}
use ftpserverlib.Prelude.{
  ℕ, zero, suc, ◌+◌, ◌-◌, String, Bool, true, false, ◌&&◌, ◌||◌, List, [], ◌∷◌, ◌++◌, map, reverse,
  Option, none, some, leb, ◌==◌, if◌then◌else◌,
}

abbrev pub Bytes : Type 0
Bytes = List ℕ

-- A literal of the source, all of which are ASCII.
abbrev pub codes : String → Bytes
codes String.[] = []
codes (String.◌∷◌ c s) = code c ∷ codes s

unfoldable pub equal : Bytes → Bytes → Bool
equal [] [] = true
equal (x ∷ xs) (y ∷ ys) = x == y && equal xs ys
equal _ _ = false

-- HasPrefix(s, p), the prefix first.
unfoldable pub has_prefix : Bytes → Bytes → Bool
has_prefix [] s = true
has_prefix (x ∷ p) [] = false
has_prefix (x ∷ p) (y ∷ s) = x == y && has_prefix p s

unfoldable pub has_suffix : Bytes → Bytes → Bool
unfolding has_prefix
has_suffix p s = has_prefix (reverse p) (reverse s)

-- What stands behind a prefix that is there.
unfoldable pub trim_prefix : Bytes → Bytes → Bytes
trim_prefix [] s = s
trim_prefix (x ∷ p) [] = []
trim_prefix (x ∷ p) (y ∷ s) = trim_prefix p s

unfoldable pub has_byte : ℕ → Bytes → Bool
has_byte b [] = false
has_byte b (c ∷ s) = c == b || has_byte b s

unfoldable pub replace_byte : ℕ → Bytes → Bytes → Bytes
replace_byte b r [] = []
replace_byte b r (c ∷ s) = (if c == b then r else c ∷ []) ++ replace_byte b r s

upper : ℕ → ℕ
upper c = if leb b'a' c && leb c b'z' then c - 32 else c

lower : ℕ → ℕ
lower c = if leb b'A' c && leb c b'Z' then c + 32 else c

unfoldable pub to_upper : Bytes → Bytes
unfolding upper
to_upper = map upper

unfoldable pub to_lower : Bytes → Bytes
unfolding lower
to_lower = map lower

-- The text before and behind the first separator.
abbrev cut_step : ℕ → ℕ → Bytes → Option (Bytes × Bytes) → Option (Bytes × Bytes)
cut_step b c s rest =
    if c == b
    then some ([], s)
    else elim rest [ none ↦ none | some (before, behind) ↦ some (c ∷ before, behind) ]

unfoldable pub cut : ℕ → Bytes → Option (Bytes × Bytes)
cut b [] = none
cut b (c ∷ s) = cut_step b c s (cut b s)

-- SplitN(s, sep, n) for n > 0.
unfoldable pub split_n : ℕ → ℕ → Bytes → List Bytes
unfolding cut
split_n zero b s = []
split_n (suc zero) b s = s ∷ []
split_n (suc (suc n)) b s = elim (cut b s) [
  | none ↦ s ∷ []
  | some (before, behind) ↦ before ∷ split_n (suc n) b behind
]

abbrev pub cons_head : ℕ → List Bytes → List Bytes
cons_head c [] = (c ∷ []) ∷ []
cons_head c (h ∷ t) = (c ∷ h) ∷ t

abbrev pub split_step : ℕ → ℕ → List Bytes → List Bytes
split_step b c rest = if c == b then [] ∷ rest else cons_head c rest

-- Split(s, sep) for a separator of one byte.
unfoldable pub split : ℕ → Bytes → List Bytes
split b [] = [] ∷ []
split b (c ∷ s) = split_step b c (split b s)

unfoldable pub join : ℕ → List Bytes → Bytes
join b [] = []
join b (x ∷ []) = x
join b (x ∷ y ∷ r) = x ++ (b ∷ join b (y ∷ r))
