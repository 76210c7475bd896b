-- ===== src/Server/Frame/Misc.antt =====
-- FEAT, OPTS and SITE, whose methods are made of others.
use ftpserverlib.Prelude.{Bool, true, false, List, [], ◌∷◌, arith}
use ftpserverlib.Text.{Bytes, split_n, to_upper}
use ftpserverlib.Session.{Env}
use ftpserverlib.Session.Leaves.{Same, Leaves}
use ftpserverlib.Misc.{
  feature_lines, feat_end, feat_with, handle_feat, handle_opts_hash, handle_opts, first, second,
  site_command, site_at, handle_site,
}
use ftpserverlib.Server.Frame.Simple.{
  handle_chmod-Same, handle_chown-Same, handle_symlink-Same, handle_mkdir-Same, handle_rmdir-Same,
}

module _ {W : Type 0} (env : Env W) where
  -- With the names as a list, the answer is written line by line.
  feat_end-Same : (names : List Bytes) → Leaves Same (feat_end env names)
  unfolding feat_end feature_lines
  feat_end-Same [] = record { at = λ s. ground arith }
  feat_end-Same (f ∷ names) = record { at = λ s. (feat_end-Same names).at _ }

  feat_with-Same : (hash tls : Bool) → Leaves Same (feat_with env hash tls)
  unfolding feat_with
  feat_with-Same false tls = record { at = λ s. (feat_end-Same _).at _ }
  feat_with-Same true tls = record { at = λ s. (feat_end-Same _).at _ }

  pub handle_feat-Same : (param : Bytes) → Leaves Same (handle_feat env param)
  unfolding handle_feat
  handle_feat-Same param = record { at = λ s. (feat_with-Same env.settings.enable_hash _).at _ }

  pub handle_opts-Same : (param : Bytes) → Leaves Same (handle_opts env param)
  unfolding handle_opts handle_opts_hash
  handle_opts-Same param = record { at = λ s. ground arith }

  site_command-Same : (cmd params : Bytes) → Leaves Same (site_command env cmd params)
  site_command-Same cmd params = record {
    at = λ s.
        let chmod = (handle_chmod-Same env params).at s in
        let chown = (handle_chown-Same env params).at s in
        let symlink = (handle_symlink-Same env params).at s in
        let mkdir = (handle_mkdir-Same env params).at s in
        let rmdir = (handle_rmdir-Same env params).at s in ground arith;
  }

  site_at-Same : (disabled : Bool) (param : Bytes) → Leaves Same (site_at env disabled param)
  site_at-Same true param = record { at = λ s. ground arith }
  site_at-Same false param = record {
    at = λ s.
        let parts = split_n 2 b' ' param in
        let same = (site_command-Same (to_upper (first parts)) (second parts)).at s in ground arith;
  }

  pub handle_site-Same : (param : Bytes) → Leaves Same (handle_site env param)
  unfolding handle_site
  handle_site-Same param = site_at-Same env.settings.disable_site param
