-- ===== src/Files/Concat.antt =====
-- What COMB leaves in its target.
use ftpserverlib.Prelude.{
  ℕ, true, false, List, [], ◌∷◌, ◌++◌, Option, none, some, ◌≡◌, ◌≢◌, refl, sym, ap, ◌∙◌, inl, inr,
  arith, map, Option-cases, append-nil, append_assoc, All, ◌+◌, length,
}
use ftpserverlib.Prelude.Int.{pos}
use ftpserverlib.Text.{Bytes}
use ftpserverlib.Errors.{Error, get_error_code}
use ftpserverlib.Paths.{abs_path}
use ftpserverlib.Session.{
  Call, ClientDriver, Env, FileInfo, Flags, Session, Result-cases, ok, reply_codes,
}
use ftpserverlib.Files.Copy.{concat, through, write_count, write_error, copy_chunks, copy_through}
use ftpserverlib.Files.Combine.{combine_parts, combine_files, combine_flags, handle_comb}
use ftpserverlib.Files.Delivery.{Appends, Delivered-whole}
use ftpserverlib.Files.Params.{unquote_space_separated_params}
use ftpserverlib.Files.Transfers.{read_only}
use ftpserverlib.Files.Opening.{opening, opening_for, get_file_handle-opening}
use ftpserverlib.Files.Complete.{Keeps, copy_through-Delivered}

-- The parts are files that are not the target, each named once.
abbrev pub Apart : Bytes → List Bytes → Type 0
Apart target [] = Unit
Apart target (p ∷ ps) = (p ≢ target) × All (λ q. q ≢ p) ps × Apart target ps

module _ {W : Type 0} (d : ClientDriver W) (text : Bytes → W → Bytes) where
  -- What OpenFile and the calls after it do to files, by the path of each: a file that is opened for
  -- reading then reads as its text, one that is opened for appending grows by what is written to it,
  -- and no other file changes. Remove changes the file that it removes.
  pub record IsFileSystem : Type 0 where
    pub stat_keeps : (path q : Bytes) → Keeps (text q) (d.stat path)
    pub open_keeps : (path q : Bytes) → Keeps (text q) (opening d path (pos 0))
    pub reads :
        (path : Bytes) (w w' : W) (h : ℕ)
        → opening d path (pos 0) w ≡ (ok h, w')
        → concat (d.read_file h w').0.0 ≡ text path w'
    pub read_keeps : (h : ℕ) (q : Bytes) → Keeps (text q) (d.read_file h)
    pub close_keeps : (h : ℕ) (q : Bytes) → Keeps (text q) (d.close_file h)
    pub remove_keeps : (path q : Bytes) → q ≢ path → Keeps (text q) (d.remove path)
    pub append_opens :
        (flags : Flags) (path q : Bytes)
        → flags.trunc ≡ false
        → Keeps (text q) (opening_for flags d path (pos 0))
    pub appends :
        (flags : Flags) (path : Bytes) (w w' : W) (h : ℕ)
        → flags.append ≡ true
        → opening_for flags d path (pos 0) w ≡ (ok h, w')
        → Appends (text path) (d.write_file h)
          × ((q x : Bytes) → q ≢ path → Keeps (text q) (d.write_file h x))

module _ {W : Type 0} (contents : W → Bytes) where
  copy_chunks-Keeps :
      (put : Bytes → Call W (ℕ × Option Error)) (chunks : List Bytes) (e : Option Error) (n : ℕ)
      → ((x : Bytes) → Keeps contents (put x))
      → Keeps contents (copy_chunks put chunks e n)
  unfolding copy_chunks
  copy_chunks-Keeps put [] e n k w = refl
  copy_chunks-Keeps put ([] ∷ xs) e n k w = copy_chunks-Keeps put xs e n k w
  copy_chunks-Keeps put ((c ∷ x) ∷ xs) e n k w =
      let first = k (c ∷ x) w in
      let ((m, ew), w') = put (c ∷ x) w in
      let later = copy_chunks-Keeps put xs e (n + write_count (length (c ∷ x)) m) k w' in
      elim (Option-cases (write_error (length (c ∷ x)) m ew)) [
        | inl fine ↦ rw (copy_chunks, fine) (later ∙ first)
        | inr (e', bad) ↦ rw (copy_chunks, bad) first
      ]

module _ {W : Type 0} (env : Env W) (text : Bytes → W → Bytes) where
  texts-same :
      (p target : Bytes) (ps : List Bytes) (w w' : W)
      → ((q : Bytes) → q ≢ p → q ≢ target → text q w' ≡ text q w)
      → All (λ q. q ≢ p) ps
      → Apart target ps
      → map (λ q. text q w') ps ≡ map (λ q. text q w) ps
  texts-same p target [] w w' same other apart = refl
  texts-same p target (q ∷ ps) w w' same (other, others) (not_target, distinct, apart) =
      let first = same q other not_target in
      let later = texts-same p target ps w w' same others apart in rw (first, later) refl

  texts-path :
      (path : Bytes → Bytes) (ps : List Bytes) (w w' : W)
      → ((q : Bytes) → text q w' ≡ text q w)
      → map (λ q. text q w') (map path ps) ≡ map (λ p. text (path p) w) ps
  texts-path path [] w w' same = refl
  texts-path path (p ∷ ps) w w' same =
      let later = texts-path path ps w w' same in rw (same (path p), later) refl

  -- what the copy of one part leaves of the target, and of every other file
  copy-Copied :
      (d : ClientDriver W) (target p : Bytes) (file src : ℕ) (w0 w : W)
      → IsFileSystem d text
      → Appends (text target) (d.write_file file)
      → ((q x : Bytes) → q ≢ target → Keeps (text q) (d.write_file file x))
      → p ≢ target
      → opening d p (pos 0) w0 ≡ (ok src, w)
      → let ((n, e), w1) = copy_through none (d.read_file src) (d.write_file file) w in
        let w3 = (d.remove p (d.close_file src w1).1).1 in
        e ≡ none
        → (text target w3 ≡ text target w0 ++ text p w0)
          × ((q : Bytes) → q ≢ p → q ≢ target → text q w3 ≡ text q w0)
  unfolding copy_through copy_chunks through
  copy-Copied d target p file src w0 w fs a others apart opens fine =
      let ((n, e), w1) = copy_through none (d.read_file src) (d.write_file file) w in
      let ((chunks, source_error), wr) = d.read_file src w in
      let w2 = (d.close_file src w1).1 in
      let opened : (q : Bytes) → text q w ≡ text q w0 =
        λ q. sym (ap (λ x. text q x.1) opens) ∙ fs.open_keeps p q w0 in
      let delivered =
        copy_through-Delivered (text target) none (d.read_file src) (d.write_file file) w a
          (fs.read_keeps src target) in
      let copied : text target w1 ≡ text target w ++ concat chunks =
        Delivered-whole (text target) (concat chunks) source_error w e w1 delivered
          (λ x is. absurd (ground arith)) in
      let is_text : concat chunks ≡ text p w0 = fs.reads p w0 w src opens ∙ opened p in
      (
        fs.remove_keeps p target (λ same. apart (sym same)) w2
            ∙ fs.close_keeps src target w1
            ∙ copied
            ∙ ap (λ x. x ++ concat chunks) (opened target)
            ∙ ap (λ x. text target w0 ++ x) is_text,
        λ q not_p not_target.
            fs.remove_keeps p q not_p w2
            ∙ fs.close_keeps src q w1
            ∙ copy_chunks-Keeps (text q) (d.write_file file) chunks source_error 0
                (λ x. others q x not_target) wr
            ∙ fs.read_keeps src q w
            ∙ opened q,
      )

  combine_parts-concat :
      (parts : List Bytes) (target : Bytes) (file n : ℕ) (s : Session W)
      → s.client.driver ≡ some n
      → IsFileSystem (env.main.driver n) text
      → Appends (text target) ((env.main.driver n).write_file file)
      → ((q x : Bytes) → q ≢ target → Keeps (text q) ((env.main.driver n).write_file file x))
      → Apart target parts
      → let s' = (combine_parts env target file parts s).1 in
        reply_codes s'.log ≡ 250 ∷ reply_codes s.log
        → text target s'.world ≡ text target s.world ++ concat (map (λ p. text p s.world) parts)
  unfolding combine_parts concat get_error_code
  combine_parts-concat [] target file n s d fs a others apart h =
      let kept = fs.close_keeps file target s.world in
      let nothing = append-nil (text target s.world) in ground arith
  combine_parts-concat (p ∷ ps) target file n s d fs a others (not_target, distinct, apart) h =
      let (r, is, opened) = get_file_handle-opening env read_only p (pos 0) n s d in
      elim (Result-cases r) [
        | inr (e, bad) ↦ absurd (ground arith)
        | inl (src, good) ↦
            let dr = env.main.driver n in
            let w = (opening dr p (pos 0) s.world).1 in
            let ((written, e), w1) = copy_through none (dr.read_file src) (dr.write_file file) w in
            let opens : opening dr p (pos 0) s.world ≡ (ok src, w) =
              ap (λ x. (x, w)) (opened src good) in
            let copied = copy-Copied dr target p file src s.world w fs a others not_target opens in
            let w2 = (dr.close_file src w1).1 in
            let (removed, w3) = dr.remove p w2 in
            let later =
              combine_parts-concat ps target file n (record s { world = w3 }) d fs a others apart in
            elim (Option-cases e) [
              | inr (e', bad) ↦ absurd (ground arith)
              | inl fine ↦ elim (Option-cases removed) [
                | inr (e', bad) ↦ absurd (ground arith)
                | inl gone ↦
                    let (whole, same) = copied fine in
                    let rest = later (ground arith) in
                    let texts = texts-same p target ps s.world w3 same distinct apart in
                    let sum =
                      append_assoc (text target s.world) (text p s.world)
                        (concat (map (λ q. text q s.world) ps)) in
                    let moved : text target w3 ++ concat (map (λ q. text q w3) ps)
                        ≡ text target s.world
                          ++ (text p s.world ++ concat (map (λ q. text q s.world) ps)) =
                      ap (λ x. x ++ concat (map (λ q. text q w3) ps)) whole
                      ∙ ap (λ x. (text target s.world ++ text p s.world) ++ concat x) texts
                      ∙ sum in
                    let all = rest ∙ moved in ground arith
              ]
            ]
      ]

  -- A COMB onto a file that exists and that ends with 250 has appended to it what the parts held, in
  -- the order of the command, and nothing else, although each part is removed before the next one is
  -- read. The parts are other files than the target, each named once, and the driver keeps to what
  -- OpenFile documents.
  pub handle_comb-concat :
      (param target part : Bytes) (parts : List Bytes) (n : ℕ) (info : FileInfo) (s : Session W)
      (w : W)
      → s.client.driver ≡ some n
      → env.settings.enable_comb ≡ true
      → unquote_space_separated_params param ≡ some (target ∷ part ∷ parts)
      → let path = abs_path s.client.path in
        (env.main.driver n).stat (path target) s.world ≡ (ok info, w)
        → IsFileSystem (env.main.driver n) text
        → Apart (path target) (map path (part ∷ parts))
        → let s' = (handle_comb env param s).1 in
          reply_codes s'.log ≡ 250 ∷ reply_codes s.log
          → text (path target) s'.world
            ≡ text (path target) s.world ++ concat (map (λ p. text (path p) s.world) (part ∷ parts))
  unfolding handle_comb combine_files combine_flags get_error_code
  handle_comb-concat param target part parts n info s w d enabled params found fs apart h =
      let dr = env.main.driver n in
      let path = abs_path s.client.path in
      let flags = combine_flags false in
      let stat_same : (q : Bytes) → text q w ≡ text q s.world =
        λ q. sym (ap (λ x. text q x.1) found) ∙ fs.stat_keeps (path target) q s.world in
      let s1 = record s { world = w } in
      let (r, is, opened) = get_file_handle-opening env flags (path target) (pos 0) n s1 d in
      let w1 = (opening_for flags dr (path target) (pos 0) w).1 in
      elim (Result-cases r) [
        | inr (e, bad) ↦ absurd (ground arith)
        | inl (file, good) ↦
            let (appends, others) =
              fs.appends flags (path target) w w1 file refl
                (ap (λ x. (x, w1)) (opened file good)) in
            let ran =
              combine_parts-concat (map path (part ∷ parts)) (path target) file n
                (record s { world = w1 }) d fs appends others apart in
            let opened_same : (q : Bytes) → text q w1 ≡ text q s.world =
              λ q. fs.append_opens flags (path target) q refl w ∙ stat_same q in
            let texts = texts-path path (part ∷ parts) s.world w1 opened_same in
            let same : (handle_comb env param s).1
                ≡ (combine_parts env (path target) file (map path (part ∷ parts))
                    (record s { world = w1 })).1 =
              ground arith in
            ap (λ x. text (path target) x.world) same
            ∙ ran (ap (λ x. reply_codes x.log) (sym same) ∙ h)
            ∙ ap (λ x. x ++ concat (map (λ p. text p w1) (map path (part ∷ parts))))
                (opened_same (path target))
            ∙ ap (λ x. text (path target) s.world ++ concat x) texts
      ]
