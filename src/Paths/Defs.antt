-- ===== src/Paths/Defs.antt =====
-- path.Clean, Join, Dir, Split and IsAbs by their documented rules; absPath and getRelativePath of
-- handle_dirs.go.
use ftpserverlib.Prelude.{
  ℕ, zero, suc, Bool, true, false, ◌||◌, List, [], ◌∷◌, ◌++◌, reverse, foldl, Option, none, some,
  ◌==◌, if◌then◌else◌, length,
}
use ftpserverlib.Text.{Bytes, equal, has_prefix, has_suffix, trim_prefix, has_byte, split, join}

abbrev pub slash : ℕ
slash = b'/'

abbrev pub dot : Bytes
dot = b'.' ∷ []

abbrev pub dotdot : Bytes
dotdot = b'.' ∷ b'.' ∷ []

unfoldable pub is_abs : Bytes → Bool
is_abs [] = false
is_abs (c ∷ s) = c == slash

-- An element `..`, on the elements kept so far, the last one first.
unfoldable pub go_up : Bool → List Bytes → List Bytes
unfolding equal
go_up rooted [] = if rooted then [] else dotdot ∷ []
go_up rooted (top ∷ kept) = if equal top dotdot then dotdot ∷ top ∷ kept else kept

unfoldable pub push : Bool → List Bytes → Bytes → List Bytes
unfolding go_up
push rooted kept e =
    if equal e [] || equal e dot
    then kept
    else if equal e dotdot
    then go_up rooted kept
    else e ∷ kept

unfoldable pub clean_elements : Bool → Bytes → List Bytes
unfolding push split
clean_elements rooted p = reverse (foldl (push rooted) [] (split slash p))

abbrev pub or_dot : List Bytes → Bytes
or_dot [] = dot
or_dot (e ∷ es) = join slash (e ∷ es)

unfoldable pub clean : Bytes → Bytes
unfolding clean_elements is_abs join
clean p =
    if is_abs p then slash ∷ join slash (clean_elements true p) else or_dot (clean_elements false p)

-- path.Join of two elements: empty ones are ignored, and two of them give "".
unfoldable pub join_path : Bytes → Bytes → Bytes
join_path [] [] = []
join_path [] (c ∷ q) = clean (c ∷ q)
join_path (b ∷ p) [] = clean (b ∷ p)
join_path (b ∷ p) (c ∷ q) = clean ((b ∷ p) ++ (slash ∷ c ∷ q))

-- path.Split's directory: all up to the last slash, the slash included.
unfoldable pub split_dir : Bytes → Bytes
unfolding has_byte
split_dir [] = []
split_dir (c ∷ s) = if has_byte slash (c ∷ s) then c ∷ split_dir s else []

unfoldable pub dir : Bytes → Bytes
dir p = clean (split_dir p)

-- absPath, the working directory first.
unfoldable pub abs_path : Bytes → Bytes → Bytes
abs_path cwd p = if is_abs p then clean p else join_path cwd p

-- `base += "/"`, unless it is there.
unfoldable pub with_slash : Bytes → Bytes
unfolding has_suffix
with_slash base = if has_suffix (slash ∷ []) base then base else base ++ (slash ∷ [])

abbrev pub up : Bytes
up = b'.' ∷ b'.' ∷ slash ∷ []

-- The loop of getRelativePath. `none` is a loop that has not ended when the fuel is gone.
unfoldable pub relative_loop : ℕ → Bytes → Bytes → Bytes → Option Bytes
relative_loop zero base builder input = none
relative_loop (suc fuel) base builder input =
    let base' = with_slash base in
    let rest = relative_loop fuel (dir (clean base')) (builder ++ up) input in
    if equal base input
    then some builder
    else if has_prefix base' input
    then some (builder ++ trim_prefix base' input)
    else if equal base' (slash ∷ []) || equal base' (b'.' ∷ slash ∷ [])
    then some input
    else rest

-- Each round takes an element off the base, so its length bounds the rounds.
unfoldable pub get_relative_path : Bytes → Bytes → Option Bytes
get_relative_path cwd input = relative_loop (suc (length cwd)) cwd [] input
