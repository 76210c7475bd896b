-- ===== src/Server/Frame/Simple.antt =====
-- The commands that change neither the driver nor the user nor the working directory.
use ftpserverlib.Prelude.{arith}
use ftpserverlib.Text.{Bytes}
use ftpserverlib.Session.{Env}
use ftpserverlib.Session.Leaves.{Same, Leaves}
use ftpserverlib.Transfer.{handle_abor}
use ftpserverlib.Dirs.{handle_mkd, handle_rmd, handle_pwd, handle_mkdir, handle_rmdir}
use ftpserverlib.Files.{
  handle_dele, handle_rnfr, handle_rnto, handle_size, handle_mlst, handle_allo, handle_rest,
  handle_mdtm, handle_mfmt, handle_chmod, handle_chown, handle_symlink,
}
use ftpserverlib.Data.{handle_port}
use ftpserverlib.Misc.{
  handle_auth, handle_prot, handle_pbsz, handle_noop, handle_clnt, handle_mode, handle_quit,
  handle_not_implemented, handle_type, handle_syst, handle_avbl, handle_stat_server,
}

module _ {W : Type 0} (env : Env W) where
  pub handle_mkd-Same : (param : Bytes) → Leaves Same (handle_mkd env param)
  unfolding handle_mkd
  handle_mkd-Same param = record { at = λ s. ground arith }

  pub handle_rmd-Same : (param : Bytes) → Leaves Same (handle_rmd env param)
  unfolding handle_rmd
  handle_rmd-Same param = record { at = λ s. ground arith }

  pub handle_pwd-Same : (param : Bytes) → Leaves Same (handle_pwd env param)
  unfolding handle_pwd
  handle_pwd-Same param = record { at = λ s. ground arith }

  pub handle_dele-Same : (param : Bytes) → Leaves Same (handle_dele env param)
  unfolding handle_dele
  handle_dele-Same param = record { at = λ s. ground arith }

  pub handle_rnfr-Same : (param : Bytes) → Leaves Same (handle_rnfr env param)
  unfolding handle_rnfr
  handle_rnfr-Same param = record { at = λ s. ground arith }

  pub handle_rnto-Same : (param : Bytes) → Leaves Same (handle_rnto env param)
  unfolding handle_rnto
  handle_rnto-Same param = record { at = λ s. ground arith }

  pub handle_size-Same : (param : Bytes) → Leaves Same (handle_size env param)
  unfolding handle_size
  handle_size-Same param = record { at = λ s. ground arith }

  pub handle_mlst-Same : (param : Bytes) → Leaves Same (handle_mlst env param)
  unfolding handle_mlst
  handle_mlst-Same param = record { at = λ s. ground arith }

  pub handle_allo-Same : (param : Bytes) → Leaves Same (handle_allo env param)
  unfolding handle_allo
  handle_allo-Same param = record { at = λ s. ground arith }

  pub handle_rest-Same : (param : Bytes) → Leaves Same (handle_rest env param)
  unfolding handle_rest
  handle_rest-Same param = record { at = λ s. ground arith }

  pub handle_mdtm-Same : (param : Bytes) → Leaves Same (handle_mdtm env param)
  unfolding handle_mdtm
  handle_mdtm-Same param = record { at = λ s. ground arith }

  pub handle_mfmt-Same : (param : Bytes) → Leaves Same (handle_mfmt env param)
  unfolding handle_mfmt
  handle_mfmt-Same param = record { at = λ s. ground arith }

  pub handle_port-Same : (param : Bytes) → Leaves Same (handle_port env param)
  unfolding handle_port
  handle_port-Same param = record { at = λ s. ground arith }

  pub handle_auth-Same : (param : Bytes) → Leaves Same (handle_auth env param)
  unfolding handle_auth
  handle_auth-Same param = record { at = λ s. ground arith }

  pub handle_syst-Same : (param : Bytes) → Leaves Same (handle_syst env param)
  unfolding handle_syst
  handle_syst-Same param = record { at = λ s. ground arith }

  pub handle_avbl-Same : (param : Bytes) → Leaves Same (handle_avbl env param)
  unfolding handle_avbl
  handle_avbl-Same param = record { at = λ s. ground arith }

  pub handle_abor-Same : (param : Bytes) → Leaves Same (handle_abor env param)
  unfolding handle_abor
  handle_abor-Same param = record { at = λ s. ground arith }

  pub handle_quit-Same : (param : Bytes) → Leaves Same (handle_quit env param)
  unfolding handle_quit
  handle_quit-Same param = record { at = λ s. ground arith }

  pub handle_chmod-Same : (param : Bytes) → Leaves Same (handle_chmod env param)
  unfolding handle_chmod
  handle_chmod-Same param = record { at = λ s. ground arith }

  pub handle_chown-Same : (param : Bytes) → Leaves Same (handle_chown env param)
  unfolding handle_chown
  handle_chown-Same param = record { at = λ s. ground arith }

  pub handle_symlink-Same : (param : Bytes) → Leaves Same (handle_symlink env param)
  unfolding handle_symlink
  handle_symlink-Same param = record { at = λ s. ground arith }

  pub handle_mkdir-Same : (param : Bytes) → Leaves Same (handle_mkdir env param)
  unfolding handle_mkdir
  handle_mkdir-Same param = record { at = λ s. ground arith }

  pub handle_rmdir-Same : (param : Bytes) → Leaves Same (handle_rmdir env param)
  unfolding handle_rmdir
  handle_rmdir-Same param = record { at = λ s. ground arith }

  pub handle_stat_server-Same : Leaves Same (handle_stat_server env)
  unfolding handle_stat_server
  handle_stat_server-Same = record { at = λ s. ground arith }

module _ {W : Type 0} where
  pub handle_prot-Same : (param : Bytes) → Leaves {W = W} Same (handle_prot param)
  unfolding handle_prot
  handle_prot-Same param = record { at = λ s. ground arith }

  pub handle_pbsz-Same : (param : Bytes) → Leaves {W = W} Same (handle_pbsz param)
  unfolding handle_pbsz
  handle_pbsz-Same param = record { at = λ s. ground arith }

  pub handle_noop-Same : (param : Bytes) → Leaves {W = W} Same (handle_noop param)
  unfolding handle_noop
  handle_noop-Same param = record { at = λ s. ground arith }

  pub handle_clnt-Same : (param : Bytes) → Leaves {W = W} Same (handle_clnt param)
  unfolding handle_clnt
  handle_clnt-Same param = record { at = λ s. ground arith }

  pub handle_mode-Same : (param : Bytes) → Leaves {W = W} Same (handle_mode param)
  unfolding handle_mode
  handle_mode-Same param = record { at = λ s. ground arith }

  pub handle_type-Same : (param : Bytes) → Leaves {W = W} Same (handle_type param)
  unfolding handle_type
  handle_type-Same param = record { at = λ s. ground arith }

  pub handle_not_implemented-Same :
      (param : Bytes) → Leaves {W = W} Same (handle_not_implemented param)
  unfolding handle_not_implemented
  handle_not_implemented-Same param = record { at = λ s. ground arith }
