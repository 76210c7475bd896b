-- ===== src/Server/Answer/Parts.antt =====
-- USER, PASS, FEAT, SITE, COMB, the hashes, PASV and EPSV.
use ftpserverlib.Prelude.{
  ℕ, ◌++◌, ◌∷◌, [], Bool, true, false, List, Option, none, some, ◌≡◌, arith, inl, inr, map,
  Option-cases,
}
use ftpserverlib.Prelude.Int.{ℤ, pos}
use ftpserverlib.Text.{Bytes, codes, split_n, to_upper}
use ftpserverlib.Codes.{status_syntax_error_not_recognised}
use ftpserverlib.Paths.{abs_path}
use ftpserverlib.Errors.{Error, get_error_code}
use ftpserverlib.Session.{
  reply, apply_context, ◌>>◌, pure, Env, Session, M, Outcome-cases, Result, ok, err, FileInfo,
  Flags,
}
use ftpserverlib.Auth.{user_tls, user_unless, user_verified, user_from, handle_user, handle_pass}
use ftpserverlib.Files.{
  read_only, copy_through, target_known, combine_flags, combine_params,
  unquote_space_separated_params, get_file_handle, combine_parts, combine_files, handle_comb,
}
use ftpserverlib.Misc.{
  feature_lines, feat_end, feat_with, handle_feat, first, second, site_select, site_command,
  site_at, handle_site,
}
use ftpserverlib.Server.Answer.{Answers, Replies}
use ftpserverlib.Server.Answer.Simple.{
  handle_chmod-Replies, handle_chown-Replies, handle_symlink-Replies, handle_mkdir-Replies,
  handle_rmdir-Replies,
}

module _ {W : Type 0} (env : Env W) where
  user_tls-Answers : (verify : Bool) (user : Bytes) → Answers (user_tls env verify user)
  user_tls-Answers verify user = record { at = λ s. ground arith }

  user_unless-Answers :
      (unprotected : Bool) (user : Bytes) → Answers (user_unless env unprotected user)
  user_unless-Answers true user = record { at = λ s. ground arith }
  user_unless-Answers false user = record { at = λ s. (user_tls-Answers _ user).at s }

  user_verified-Answers : (user : Bytes) (e : Option Error) → Answers (user_verified env user e)
  user_verified-Answers user none = record { at = λ s. (user_unless-Answers _ user).at s }
  user_verified-Answers user (some e) = record { at = λ s. ground arith }

  user_from-Answers : (own : Bool) (user : Bytes) → Answers (user_from env own user)
  user_from-Answers false user = record { at = λ s. (user_unless-Answers _ user).at s }
  user_from-Answers true user = record {
    at = λ s.
        let (e, calls, w) = env.main.pre_auth_user user s.world in
        (user_verified-Answers user e).at
          (let (c, w') = apply_context env calls s.client w in record s { world = w'; client = c });
  }

  pub handle_user-Answers : (param : Bytes) → Answers (handle_user env param)
  unfolding handle_user
  handle_user-Answers param = user_from-Answers env.main.has_user_verifier param

  pub handle_pass-Answers : (param : Bytes) → Answers (handle_pass env param)
  unfolding handle_pass
  handle_pass-Answers param = record { at = λ s. ground arith }

  feat_end-Answers : (names : List Bytes) → Answers (feat_end env names)
  unfolding feat_end feature_lines
  feat_end-Answers [] = record { at = λ s. ground arith }
  feat_end-Answers (f ∷ names) = record { at = λ s. (feat_end-Answers names).at _ }

  feat_with-Answers : (hash tls : Bool) → Answers (feat_with env hash tls)
  unfolding feat_with
  feat_with-Answers false tls = record { at = λ s. (feat_end-Answers _).at _ }
  feat_with-Answers true tls = record { at = λ s. (feat_end-Answers _).at _ }

  pub handle_feat-Answers : (param : Bytes) → Answers (handle_feat env param)
  unfolding handle_feat
  handle_feat-Answers param = record {
    at = λ s. (feat_with-Answers env.settings.enable_hash _).at _;
  }

  site_select-Replies :
      (b : Bool) (m n : M W (Unit {0})) → Replies m → Replies n → Replies (site_select env b m n)
  site_select-Replies true m n one other = one
  site_select-Replies false m n one other = other

  unknown-Replies :
      (cmd : Bytes)
      → Replies {W = W}
          (reply status_syntax_error_not_recognised (codes "Unknown SITE subcommand: " ++ cmd))
  unknown-Replies cmd = record { at = λ s. ground arith }

  site_command-Replies : (cmd params : Bytes) → Replies (site_command env cmd params)
  site_command-Replies cmd params = site_select-Replies _ _ _ (handle_chmod-Replies env params) (
      site_select-Replies _ _ _ (handle_chown-Replies env params) (
        site_select-Replies _ _ _ (handle_symlink-Replies env params) (
          site_select-Replies _ _ _ (handle_mkdir-Replies env params)
            (site_select-Replies _ _ _ (handle_rmdir-Replies env params) (unknown-Replies cmd)))))

  site_at-Answers : (disabled : Bool) (param : Bytes) → Answers (site_at env disabled param)
  site_at-Answers true param = record { at = λ s. ground arith }
  site_at-Answers false param = record {
    at = λ s.
        let cmd = to_upper (first (split_n 2 b' ' param)) in
        let params = second (split_n 2 b' ' param) in
        let one = (site_command-Replies cmd params).at s in
        elim (Outcome-cases (site_command env cmd params s).0) [
          | inr (text, is_panic) ↦ ground arith
          | inl (a, is_done) ↦ ground arith
        ];
  }

  pub handle_site-Answers : (param : Bytes) → Answers (handle_site env param)
  unfolding handle_site
  handle_site-Answers param = site_at-Answers env.settings.disable_site param

  pub get_file_handle-log :
      (name : Bytes) (flags : Flags) (offset : ℤ) (s : Session W)
      → (get_file_handle env name flags offset s).1.log ≡ s.log
  unfolding get_file_handle
  get_file_handle-log name flags offset s = ground arith

  combine_parts-Replies :
      (target : Bytes) (file : ℕ) (parts : List Bytes)
      → Replies (combine_parts env target file parts)
  unfolding combine_parts get_error_code
  combine_parts-Replies target file [] = record { at = λ s. ground arith }
  combine_parts-Replies target file (p ∷ ps) = record {
    at = λ s.
        let opened = get_file_handle-log p read_only (pos 0) s in
        let (r, s1) = get_file_handle env p read_only (pos 0) s in
        elim (Outcome-cases r) [
          | inr (text, is_panic) ↦ ground arith
          | inl (err e, is_done) ↦ ground arith
          | inl (ok src, is_done) ↦ elim (Option-cases s1.client.driver) [
            | inl no_driver ↦ ground arith
            | inr (n, is_driver) ↦
                let dr = env.main.driver n in
                let w1 = (copy_through none (dr.read_file src) (dr.write_file file) s1.world).1 in
                let w3 = (dr.remove p (dr.close_file src w1).1).1 in
                let later = (combine_parts-Replies target file ps).at (record s1 { world = w3 }) in
                ground arith
          ]
        ];
  }

  combine_files-Replies :
      (target : Bytes) (flags : Flags) (sources : List Bytes)
      → Replies (combine_files env target flags sources)
  unfolding combine_files get_error_code
  combine_files-Replies target flags sources = record {
    at = λ s.
        let opened = get_file_handle-log target flags (pos 0) s in
        let (r, s1) = get_file_handle env target flags (pos 0) s in
        elim (Outcome-cases r) [
          | inr (text, is_panic) ↦ ground arith
          | inl (err e, is_done) ↦ ground arith
          | inl (ok file, is_done) ↦
              let later = (combine_parts-Replies target file sources).at s1 in ground arith
        ];
  }

  combined-Answers :
      (target : Bytes) (flags : Flags) (sources : List Bytes)
      → Answers (combine_files env target flags sources >> pure none)
  combined-Answers target flags sources = record {
    at = λ s.
        let one = (combine_files-Replies target flags sources).at s in
        elim (Outcome-cases (combine_files env target flags sources s).0) [
          | inr (text, is_panic) ↦ ground arith
          | inl (a, is_done) ↦ ground arith
        ];
  }

  target_known-Answers :
      (target : Bytes) (sources : List Bytes) (r : Result FileInfo)
      → Answers (target_known env target sources r)
  target_known-Answers target sources (ok info) =
      combined-Answers target (combine_flags false) sources
  target_known-Answers target sources (err e) = record {
    at = λ s.
        let combined = (combined-Answers target (combine_flags true) sources).at s in ground arith;
  }

  combine_params-Answers :
      (param : Bytes) (names : Option (List Bytes)) → Answers (combine_params env param names)
  combine_params-Answers param none = record { at = λ s. ground arith }
  combine_params-Answers param (some []) = record { at = λ s. ground arith }
  combine_params-Answers param (some (target ∷ [])) = record { at = λ s. ground arith }
  combine_params-Answers param (some (target ∷ source ∷ sources)) = record {
    at = λ s. elim (Option-cases s.client.driver) [
      | inl no_driver ↦ ground arith
      | inr (n, is_driver) ↦
          let path = abs_path s.client.path target in
          let (r, w) = (env.main.driver n).stat path s.world in
          let known =
            (target_known-Answers path (map (abs_path s.client.path) (source ∷ sources)) r).at
              (record s { world = w }) in
          ground arith
    ];
  }

  pub handle_comb-Answers : (param : Bytes) → Answers (handle_comb env param)
  unfolding handle_comb
  handle_comb-Answers param = record {
    at = λ s.
        let combined = (combine_params-Answers param (unquote_space_separated_params param)).at s in
        ground arith;
  }
