-- ===== src/Paths/Finds.antt =====
-- One round of the loop of getRelativePath.
use ftpserverlib.Prelude.{
  ==_iff, ℕ, suc, true, false, List, [], ◌∷◌, ◌++◌, reverse, reverse-reverse, ◌≡◌, refl, sym, ap,
  ◌∙◌, ◌==◌, All, All-append, append_assoc, append-nil, some, Bool-cases, inl, inr,
}
use ftpserverlib.Text.{Bytes, equal, has_prefix, trim_prefix, join}
use ftpserverlib.Text.Compare.{equal_iff, append-trim_prefix}
use ftpserverlib.Paths.Defs.{slash, is_abs, clean, dir, with_slash, abs_path, up, relative_loop}
use ftpserverlib.Paths.Clean.{IsName, absolute}
use ftpserverlib.Paths.Fold.{walk, inner, ups, up-ups, walk-slash, walk-nil, walk-inner, walk-join}
use ftpserverlib.Paths.Trailing.{with_slash-absolute, clean-inner, dir-absolute}
use ftpserverlib.Paths.Walks.{absolute-single_slashes, abs_path-ups}

relative_loop-here :
    (fuel : ℕ) (base builder input : Bytes)
    → equal base input ≡ true
    → relative_loop (suc fuel) base builder input ≡ some builder
unfolding relative_loop
relative_loop-here fuel base builder input e = rw e

relative_loop-below :
    (fuel : ℕ) (base builder input : Bytes)
    → equal base input ≡ false
    → has_prefix (with_slash base) input ≡ true
    → relative_loop (suc fuel) base builder input
      ≡ some (builder ++ trim_prefix (with_slash base) input)
unfolding relative_loop
relative_loop-below fuel base builder input n e = rw (n, e)

relative_loop-up :
    (fuel : ℕ) (base builder input : Bytes)
    → equal base input ≡ false
    → has_prefix (with_slash base) input ≡ false
    → equal (with_slash base) (slash ∷ []) ≡ false
    → equal (with_slash base) (b'.' ∷ slash ∷ []) ≡ false
    → relative_loop (suc fuel) base builder input
      ≡ relative_loop fuel (dir (clean (with_slash base))) (builder ++ up) input
unfolding relative_loop
relative_loop-up fuel base builder input n m r d = rw (n, m, r, d)

-- What loop-abs_path says of one run.
abbrev pub Finds : ℕ → List Bytes → List Bytes → List Bytes → Type 0
Finds fuel bs ds is =
    (r : Bytes) × (relative_loop fuel (absolute bs) (ups ds) (absolute is) ≡ some r)
    × (abs_path (absolute (bs ++ ds)) r ≡ absolute is)

abs_path_here :
    (bs ds is : List Bytes)
    → All IsName bs
    → All IsName ds
    → absolute bs ≡ absolute is
    → abs_path (absolute (bs ++ ds)) (ups ds) ≡ absolute is
abs_path_here bs ds is hb hd e =
    ap (abs_path (absolute (bs ++ ds))) (sym (append-nil (ups ds)))
    ∙ abs_path-ups bs ds [] hb hd (unfold is_abs in refl)
    ∙ ap (λ k. absolute (reverse k)) (walk-nil (reverse bs))
    ∙ ap absolute (reverse-reverse bs)
    ∙ e

rest-not_abs :
    (bs is : List Bytes) (rest : Bytes)
    → All IsName bs
    → All IsName is
    → (slash ∷ inner bs) ++ rest ≡ absolute is
    → is_abs rest ≡ false
unfolding is_abs
rest-not_abs bs is [] hb hi e = refl
rest-not_abs bs is (c ∷ t) hb hi e = elim (Bool-cases (c == slash)) [
  | inr n ↦ n
  | inl y ↦ absurd (
      absolute-single_slashes bs is t hb hi
        (sym e ∙ ap (λ x. (slash ∷ inner bs) ++ (x ∷ t)) ((==_iff c slash).0 y)))
]

abs_path_below :
    (bs ds is : List Bytes) (rest : Bytes)
    → All IsName bs
    → All IsName ds
    → All IsName is
    → (slash ∷ inner bs) ++ rest ≡ absolute is
    → abs_path (absolute (bs ++ ds)) (ups ds ++ rest) ≡ absolute is
abs_path_below bs ds is rest hb hd hi e =
    abs_path-ups bs ds rest hb hd (rest-not_abs bs is rest hb hi e)
    ∙ ap (λ k. absolute (reverse k))
        (sym (walk-inner bs [] rest hb)
          ∙ sym (walk-slash [] (inner bs ++ rest))
          ∙ ap (walk []) e
          ∙ walk-slash [] (join slash is)
          ∙ walk-join is [] hi)
    ∙ ap absolute (reverse-reverse is)

Finds-here :
    (fuel : ℕ) (bs ds is : List Bytes)
    → All IsName bs
    → All IsName ds
    → equal (absolute bs) (absolute is) ≡ true
    → Finds (suc fuel) bs ds is
Finds-here fuel bs ds is hb hd e = (
  ups ds,
  relative_loop-here fuel (absolute bs) (ups ds) (absolute is) e,
  abs_path_here bs ds is hb hd ((equal_iff _ _).0 e),
)

Finds-below :
    (fuel : ℕ) (bs ds is : List Bytes)
    → All IsName bs
    → All IsName ds
    → All IsName is
    → equal (absolute bs) (absolute is) ≡ false
    → has_prefix (with_slash (absolute bs)) (absolute is) ≡ true
    → Finds (suc fuel) bs ds is
Finds-below fuel bs ds is hb hd hi n p =
    let found = append-trim_prefix (with_slash (absolute bs)) (absolute is) p in
    let w = with_slash-absolute bs hb in
    (
      ups ds ++ trim_prefix (with_slash (absolute bs)) (absolute is),
      relative_loop-below fuel (absolute bs) (ups ds) (absolute is) n p,
      abs_path_below bs ds is (trim_prefix (with_slash (absolute bs)) (absolute is)) hb hd hi
          (ap (λ x. x ++ trim_prefix (with_slash (absolute bs)) (absolute is)) (sym w) ∙ found),
    )

-- The root is a prefix of every absolute path.
with_slash-not_root :
    (base : Bytes) (es : List Bytes)
    → has_prefix (with_slash base) (absolute es) ≡ false
    → equal (with_slash base) (slash ∷ []) ≡ false
unfolding has_prefix
with_slash-not_root base es m = elim (Bool-cases (equal (with_slash base) (slash ∷ []))) [
  | inr n ↦ n
  | inl y ↦
      cc (ap (λ x. has_prefix x (absolute es)) ((equal_iff (with_slash base) (slash ∷ [])).0 y))
]

Finds-up :
    (fuel : ℕ) (bs ds is : List Bytes) (b : Bytes)
    → All IsName bs
    → IsName b
    → equal (absolute (bs ++ (b ∷ []))) (absolute is) ≡ false
    → has_prefix (with_slash (absolute (bs ++ (b ∷ [])))) (absolute is) ≡ false
    → Finds fuel bs (b ∷ ds) is
    → Finds (suc fuel) (bs ++ (b ∷ [])) ds is
Finds-up fuel bs ds is b hb h n m (r, found, leads) =
    let both : All IsName (bs ++ (b ∷ [])) = All-append IsName bs (b ∷ []) hb (h, tt) in
    let w = with_slash-absolute (bs ++ (b ∷ [])) both in
    let climbed : dir (clean (with_slash (absolute (bs ++ (b ∷ []))))) ≡ absolute bs =
      ap (λ x. dir (clean x)) w
      ∙ ap dir (clean-inner (bs ++ (b ∷ [])) both)
      ∙ dir-absolute bs b hb h in
    (
      r,
      relative_loop-up fuel (absolute (bs ++ (b ∷ []))) (ups ds) (absolute is) n m
            (with_slash-not_root (absolute (bs ++ (b ∷ []))) is m) (rw w (unfold equal in refl))
          ∙ ap (λ x. relative_loop fuel x (ups ds ++ up) (absolute is)) climbed
          ∙ ap (λ x. relative_loop fuel (absolute bs) x (absolute is))
              (sym (up-ups ds []) ∙ ap (λ x. up ++ x) (append-nil (ups ds)))
          ∙ found,
      ap (λ x. abs_path (absolute x) r) (append_assoc bs (b ∷ []) ds) ∙ leads,
    )

pub Finds-root :
    (fuel : ℕ) (ds is : List Bytes) → All IsName ds → All IsName is → Finds (suc fuel) [] ds is
Finds-root fuel ds is hd hi = elim (Bool-cases (equal (absolute []) (absolute is))) [
  | inl e ↦ Finds-here fuel [] ds is tt hd e
  | inr n ↦
      Finds-below fuel [] ds is tt hd hi n
        (rw (with_slash-absolute [] tt) (unfold has_prefix in refl))
]

pub Finds-step :
    (fuel : ℕ) (bs ds is : List Bytes) (b : Bytes)
    → All IsName bs
    → IsName b
    → All IsName ds
    → All IsName is
    → Finds fuel bs (b ∷ ds) is
    → Finds (suc fuel) (bs ++ (b ∷ [])) ds is
Finds-step fuel bs ds is b hb h hd hi ih =
    elim (Bool-cases (equal (absolute (bs ++ (b ∷ []))) (absolute is))) [
      | inl e ↦ Finds-here fuel (bs ++ (b ∷ [])) ds is both hd e
      | inr n ↦
          elim (Bool-cases (has_prefix (with_slash (absolute (bs ++ (b ∷ [])))) (absolute is))) [
            | inl p ↦ Finds-below fuel (bs ++ (b ∷ [])) ds is both hd hi n p
            | inr m ↦ Finds-up fuel bs ds is b hb h n m ih
          ]
    ]
  where
    both : All IsName (bs ++ (b ∷ []))
    both = All-append IsName bs (b ∷ []) hb (h, tt)
