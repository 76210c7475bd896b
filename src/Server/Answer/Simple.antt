-- ===== src/Server/Answer/Simple.antt =====
-- The commands that are answered by one writeMessage.
use ftpserverlib.Prelude.{arith}
use ftpserverlib.Text.{Bytes}
use ftpserverlib.Errors.{get_error_code}
use ftpserverlib.Session.{Env}
use ftpserverlib.Dirs.{
  handle_mkd, handle_rmd, handle_pwd, handle_mkdir, handle_rmdir, handle_cwd, handle_cdup,
}
use ftpserverlib.Files.{
  handle_dele, handle_rnfr, handle_rnto, handle_size, handle_allo, handle_rest, handle_mdtm,
  handle_mfmt, handle_chmod, handle_chown, handle_symlink,
}
use ftpserverlib.Data.{handle_port}
use ftpserverlib.Misc.{
  handle_auth, handle_prot, handle_pbsz, handle_noop, handle_clnt, handle_mode, handle_quit,
  handle_not_implemented, handle_opts, handle_opts_hash, handle_type, handle_syst, handle_avbl,
}
use ftpserverlib.Server.Answer.{Answers, Replies}

module _ {W : Type 0} (env : Env W) where
  pub handle_mkd-Answers : (param : Bytes) → Answers (handle_mkd env param)
  unfolding handle_mkd get_error_code
  handle_mkd-Answers param = record { at = λ s. ground arith }

  pub handle_rmd-Answers : (param : Bytes) → Answers (handle_rmd env param)
  unfolding handle_rmd get_error_code
  handle_rmd-Answers param = record { at = λ s. ground arith }

  pub handle_pwd-Answers : (param : Bytes) → Answers (handle_pwd env param)
  unfolding handle_pwd get_error_code
  handle_pwd-Answers param = record { at = λ s. ground arith }

  pub handle_cwd-Answers : (param : Bytes) → Answers (handle_cwd env param)
  unfolding handle_cwd get_error_code
  handle_cwd-Answers param = record { at = λ s. ground arith }

  pub handle_cdup-Answers : (param : Bytes) → Answers (handle_cdup env param)
  unfolding handle_cdup get_error_code
  handle_cdup-Answers param = record { at = λ s. ground arith }

  pub handle_dele-Answers : (param : Bytes) → Answers (handle_dele env param)
  unfolding handle_dele get_error_code
  handle_dele-Answers param = record { at = λ s. ground arith }

  pub handle_rnfr-Answers : (param : Bytes) → Answers (handle_rnfr env param)
  unfolding handle_rnfr get_error_code
  handle_rnfr-Answers param = record { at = λ s. ground arith }

  pub handle_rnto-Answers : (param : Bytes) → Answers (handle_rnto env param)
  unfolding handle_rnto get_error_code
  handle_rnto-Answers param = record { at = λ s. ground arith }

  pub handle_size-Answers : (param : Bytes) → Answers (handle_size env param)
  unfolding handle_size get_error_code
  handle_size-Answers param = record { at = λ s. ground arith }

  pub handle_allo-Answers : (param : Bytes) → Answers (handle_allo env param)
  unfolding handle_allo get_error_code
  handle_allo-Answers param = record { at = λ s. ground arith }

  pub handle_rest-Answers : (param : Bytes) → Answers (handle_rest env param)
  unfolding handle_rest get_error_code
  handle_rest-Answers param = record { at = λ s. ground arith }

  pub handle_mdtm-Answers : (param : Bytes) → Answers (handle_mdtm env param)
  unfolding handle_mdtm get_error_code
  handle_mdtm-Answers param = record { at = λ s. ground arith }

  pub handle_mfmt-Answers : (param : Bytes) → Answers (handle_mfmt env param)
  unfolding handle_mfmt get_error_code
  handle_mfmt-Answers param = record { at = λ s. ground arith }

  pub handle_port-Answers : (param : Bytes) → Answers (handle_port env param)
  unfolding handle_port get_error_code
  handle_port-Answers param = record { at = λ s. ground arith }

  pub handle_auth-Answers : (param : Bytes) → Answers (handle_auth env param)
  unfolding handle_auth get_error_code
  handle_auth-Answers param = record { at = λ s. ground arith }

  pub handle_syst-Answers : (param : Bytes) → Answers (handle_syst env param)
  unfolding handle_syst get_error_code
  handle_syst-Answers param = record { at = λ s. ground arith }

  pub handle_avbl-Answers : (param : Bytes) → Answers (handle_avbl env param)
  unfolding handle_avbl get_error_code
  handle_avbl-Answers param = record { at = λ s. ground arith }

  pub handle_quit-Answers : (param : Bytes) → Answers (handle_quit env param)
  unfolding handle_quit get_error_code
  handle_quit-Answers param = record { at = λ s. ground arith }

  pub handle_opts-Answers : (param : Bytes) → Answers (handle_opts env param)
  unfolding handle_opts handle_opts_hash get_error_code
  handle_opts-Answers param = record { at = λ s. ground arith }

  pub handle_chmod-Replies : (param : Bytes) → Replies (handle_chmod env param)
  unfolding handle_chmod get_error_code
  handle_chmod-Replies param = record { at = λ s. ground arith }

  pub handle_chown-Replies : (param : Bytes) → Replies (handle_chown env param)
  unfolding handle_chown get_error_code
  handle_chown-Replies param = record { at = λ s. ground arith }

  pub handle_symlink-Replies : (param : Bytes) → Replies (handle_symlink env param)
  unfolding handle_symlink get_error_code
  handle_symlink-Replies param = record { at = λ s. ground arith }

  pub handle_mkdir-Replies : (param : Bytes) → Replies (handle_mkdir env param)
  unfolding handle_mkdir get_error_code
  handle_mkdir-Replies param = record { at = λ s. ground arith }

  pub handle_rmdir-Replies : (param : Bytes) → Replies (handle_rmdir env param)
  unfolding handle_rmdir get_error_code
  handle_rmdir-Replies param = record { at = λ s. ground arith }

module _ {W : Type 0} where
  pub handle_prot-Answers : (param : Bytes) → Answers {W = W} (handle_prot param)
  unfolding handle_prot
  handle_prot-Answers param = record { at = λ s. ground arith }

  pub handle_pbsz-Answers : (param : Bytes) → Answers {W = W} (handle_pbsz param)
  unfolding handle_pbsz
  handle_pbsz-Answers param = record { at = λ s. ground arith }

  pub handle_noop-Answers : (param : Bytes) → Answers {W = W} (handle_noop param)
  unfolding handle_noop
  handle_noop-Answers param = record { at = λ s. ground arith }

  pub handle_clnt-Answers : (param : Bytes) → Answers {W = W} (handle_clnt param)
  unfolding handle_clnt
  handle_clnt-Answers param = record { at = λ s. ground arith }

  pub handle_mode-Answers : (param : Bytes) → Answers {W = W} (handle_mode param)
  unfolding handle_mode
  handle_mode-Answers param = record { at = λ s. ground arith }

  pub handle_type-Answers : (param : Bytes) → Answers {W = W} (handle_type param)
  unfolding handle_type
  handle_type-Answers param = record { at = λ s. ground arith }

  pub handle_not_implemented-Answers :
      (param : Bytes) → Answers {W = W} (handle_not_implemented param)
  unfolding handle_not_implemented
  handle_not_implemented-Answers param = record { at = λ s. ground arith }
