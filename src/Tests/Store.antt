-- ===== src/Tests/Store.antt =====
-- COMB over a file system with the files /t, /f and /g, whose world is the texts by their paths.
use mathlib.Core.Path.{subst}
use ftpserverlib.Prelude.{
  ℕ, false, [], ◌∷◌, ◌++◌, none, ◌≡◌, ◌≢◌, refl, sym, ap, ◌∙◌, arith, ◌==◌, if◌then◌else◌, length,
  take, inl, inr, append-nil, Bool-cases,
}
use ftpserverlib.Text.{Bytes, codes, equal, join}
use ftpserverlib.Text.Compare.{equal_iff, equal_refl}
use ftpserverlib.Errors.{foreign}
use ftpserverlib.Session.{
  Env, ClientDriver, Session, Result, ok, err, new_client_handler, clear_or_encrypted,
}
use ftpserverlib.Files.{
  handle_comb, concat, unquote_space_separated_params, csv_fields, csv_step, combine_files,
  combine_parts, get_file_handle, copy_through, copy_chunks, through,
}
use ftpserverlib.Reply.{drop_cr}
use ftpserverlib.Text.{split}
use ftpserverlib.Paths.{abs_path, is_abs, clean, clean_elements, push, go_up, join_path}
use ftpserverlib.Files.Delivery.{Appends}
use ftpserverlib.Files.Concat.{IsFileSystem, handle_comb-concat}
use ftpserverlib.Tests.World.{env_over, files_over, drivers_over, logged_in, file_info}

abbrev Texts : Type 0
Texts = Bytes → Bytes

abbrev text : Bytes → Texts → Bytes
text path w = w path

abbrev set : Bytes → Bytes → Texts → Texts
set path x w q = if equal q path then x else w q

abbrev path_of : ℕ → Bytes
path_of h = if h == 1 then codes "/t" else if h == 2 then codes "/f" else codes "/g"

abbrev open_named : Bytes → Result ℕ
open_named path =
    if equal path (codes "/t")
    then ok 1
    else if equal path (codes "/f")
    then ok 2
    else if equal path (codes "/g")
    then ok 3
    else err (foreign (codes "no such file"))

-- Every file grows by what is written to it.
abbrev texts : ClientDriver Texts
texts = record (files_over (λ w. w)) {
  stat = λ path w. (ok file_info, w);
  remove = λ path w. (none, set path [] w);
  open_file = λ path flags w. (open_named path, w);
  read_file = λ h w. ((w (path_of h) ∷ [], none), w);
  write_file = λ h x w. ((length x, none), set (path_of h) (w (path_of h) ++ x) w);
}

open_named-path_of : (path : Bytes) (h : ℕ) → open_named path ≡ ok h → path_of h ≡ path
open_named-path_of path h is = elim (Bool-cases (equal path (codes "/t"))) [
  | inl t ↦
      let number : h ≡ 1 = ground arith in
      ap path_of number ∙ sym ((equal_iff path (codes "/t")).0 t)
  | inr not_t ↦ elim (Bool-cases (equal path (codes "/f"))) [
    | inl f ↦
        let number : h ≡ 2 = ground arith in
        ap path_of number ∙ sym ((equal_iff path (codes "/f")).0 f)
    | inr not_f ↦ elim (Bool-cases (equal path (codes "/g"))) [
      | inl g ↦
          let number : h ≡ 3 = ground arith in
          ap path_of number ∙ sym ((equal_iff path (codes "/g")).0 g)
      | inr not_g ↦ absurd (ground arith)
    ]
  ]
]

set-other : (path x q : Bytes) (w : Texts) → q ≢ path → set path x w q ≡ w q
set-other path x q w other = elim (Bool-cases (equal q path)) [
  | inl same ↦ absurd (other ((equal_iff q path).0 same))
  | inr not_same ↦ rw (not_same) refl
]

set-same : (path x : Bytes) (w : Texts) → set path x w path ≡ x
set-same path x w = rw (equal_refl path) refl

take-length : (x : Bytes) → take (length x) x ≡ x
take-length [] = refl
take-length (c ∷ x) = rw (take-length x) refl

-- A handle of a path writes to that path's text.
writes-Appends :
    (path : Bytes) (h : ℕ) → path_of h ≡ path → Appends (text path) (texts.write_file h)
writes-Appends path h is x w = (
  omega arith,
  subst (λ p. set p (w p ++ x) w path ≡ w path ++ take (length x) x) (sym is)
      (set-same path (w path ++ x) w ∙ ap (λ y. w path ++ y) (sym (take-length x))),
  λ e. refl,
  λ e bad. cc,
)

texts-IsFileSystem : IsFileSystem texts text
unfolding concat
texts-IsFileSystem = record {
  stat_keeps = λ path q w. refl;
  open_keeps = λ path q w. refl;
  reads = λ path w w' h is.
      let same : w' ≡ w = sym (ap (λ x. x.1) is) in
      let named = open_named-path_of path h (ap (λ x. x.0) is) in
      append-nil (w' (path_of h)) ∙ ap w' named;
  read_keeps = λ h q w. refl;
  close_keeps = λ h q w. refl;
  remove_keeps = λ path q other w. set-other path [] q w other;
  append_opens = λ flags path q kept w. refl;
  appends = λ flags path w w' h appending is.
      let named = open_named-path_of path h (ap (λ x. x.0) is) in
      (
        writes-Appends path h named,
        λ q x other v.
            set-other (path_of h) (v (path_of h) ++ x) q v (λ same. other (same ∙ named)),
      );
}

abbrev texts_env : Env Texts
texts_env = record (env_over (λ w. w) clear_or_encrypted (codes "10.0.0.6:40000")) {
  main = record (drivers_over (λ w. w)) { driver = λ n. texts };
}

different : (p q : Bytes) → equal p q ≡ false → p ≢ q
different p q unequal same = let e = (equal_iff p q).1 same in absurd (ground arith)

-- /t holds "x", and each part its name.
abbrev combining : Session Texts
combining = record {
  client = logged_in;
  world = λ path. if equal path (codes "/t") then codes "x" else path;
  log = [];
}

handle_comb-concat_example :
    (handle_comb texts_env (codes "t f g") combining).1.world (codes "/t") ≡ codes "x/f/g"
unfolding concat unquote_space_separated_params csv_fields csv_step drop_cr abs_path is_abs clean
    clean_elements push go_up join_path join split handle_comb combine_files combine_parts
    get_file_handle copy_through copy_chunks through equal new_client_handler
handle_comb-concat_example =
    handle_comb-concat texts_env text (codes "t f g") (codes "t") (codes "f") (codes "g" ∷ []) 0
      file_info combining combining.world refl refl refl refl texts-IsFileSystem
      (different _ _ refl, (different _ _ refl, tt), (different _ _ refl, tt, tt)) refl
