-- ===== src/Server/Frame/Run.antt =====
-- All commands.
use mathlib.Core.Path.{subst}
use ftpserverlib.Prelude.{Bool, true, false, ◌≡◌, refl, sym, arith, inl, inr}
use ftpserverlib.Text.{Bytes}
use ftpserverlib.Paths.{abs_path}
use ftpserverlib.Session.{Env, crc32, md5, sha1, sha256, sha512}
use ftpserverlib.Session.Leaves.{Leaves}
use ftpserverlib.Session.Tame.{IsTame, Stays, Framed, Same-Framed}
use ftpserverlib.Dirs.{handle_cwd, handle_cdup, cdup_target}
use ftpserverlib.Dirs.Cwd.{handle_cwd-path, handle_cdup-path}
use ftpserverlib.Server.Commands.{
  Handler, run, user_command, pass_command, not_implemented_command, auth_command, prot_command,
  pbsz_command, clnt_command, feat_command, syst_command, noop_command, opts_command, quit_command,
  avbl_command, abor_command, size_command, stat_command, mdtm_command, mfmt_command, retr_command,
  stor_command, appe_command, dele_command, rnfr_command, rnto_command, allo_command, rest_command,
  site_command, hash_command, crc32_of_command, md5_of_command, sha1_of_command, sha256_of_command,
  sha512_of_command, comb_command, cwd_command, pwd_command, cdup_command, nlst_command,
  list_command, mlsd_command, mlst_command, mkd_command, rmd_command, type_command, mode_command,
  pasv_command, port_command,
}
use ftpserverlib.Server.Frame.Simple.{
  handle_mkd-Same, handle_rmd-Same, handle_pwd-Same, handle_dele-Same, handle_rnfr-Same,
  handle_rnto-Same, handle_size-Same, handle_mlst-Same, handle_allo-Same, handle_rest-Same,
  handle_mdtm-Same, handle_mfmt-Same, handle_port-Same, handle_auth-Same, handle_syst-Same,
  handle_avbl-Same, handle_abor-Same, handle_quit-Same, handle_prot-Same, handle_pbsz-Same,
  handle_noop-Same, handle_clnt-Same, handle_mode-Same, handle_type-Same,
  handle_not_implemented-Same,
}
use ftpserverlib.Server.Frame.Misc.{handle_feat-Same, handle_opts-Same, handle_site-Same}
use ftpserverlib.Server.Frame.Combine.{handle_comb-Same}
use ftpserverlib.Server.Frame.Hash.{handle_generic_hash-Same, handle_hash-Same}
use ftpserverlib.Server.Frame.Transfers.{handle_stor-Same, handle_appe-Same, handle_retr-Same}
use ftpserverlib.Server.Frame.Listing.{handle_list-Framed, handle_nlst-Framed, handle_mlsd-Framed}
use ftpserverlib.Server.Frame.Status.{handle_stat-Framed}
use ftpserverlib.Server.Frame.Passive.{handle_pasv-Framed}
use ftpserverlib.Server.Frame.Login.{handle_user-Stays, handle_pass-Stays, Framed-Stays}

-- USER and PASS.
abbrev pub is_login : Handler → Bool
is_login user_command = true
is_login pass_command = true
is_login _ = false

module _ {W : Type 0} (env : Env W) (P : Bytes → Type 0) (tame : IsTame P env)
    (moved : (p param : Bytes) → P p → P (abs_path p param))
    (climbed : (p : Bytes) → P p → P (cdup_target p)) where
  handle_cwd-Framed : (param : Bytes) → Leaves (Framed P) (handle_cwd env param)
  unfolding handle_cwd
  handle_cwd-Framed param = record {
    at = λ s. (
      ground arith,
      ground arith,
      λ h. elim (handle_cwd-path env param s) [
        | inl same ↦ subst P (sym same) h
        | inr there ↦ subst P (sym there) (moved s.client.path param h)
      ],
    );
  }

  handle_cdup-Framed : (param : Bytes) → Leaves (Framed P) (handle_cdup env param)
  unfolding handle_cdup
  handle_cdup-Framed param = record {
    at = λ s. (
      ground arith,
      ground arith,
      λ h. elim (handle_cdup-path env param s) [
        | inl same ↦ subst P (sym same) h
        | inr up ↦ subst P (sym up) (climbed s.client.path h)
      ],
    );
  }

  -- Every command but USER and PASS.
  pub run-Framed :
      (h : Handler) (param : Bytes) → is_login h ≡ false → Leaves (Framed P) (run env h param)
  unfolding run
  run-Framed user_command param e = absurd (ground arith)
  run-Framed pass_command param e = absurd (ground arith)
  run-Framed auth_command param e = Same-Framed P _ (handle_auth-Same env param)
  run-Framed syst_command param e = Same-Framed P _ (handle_syst-Same env param)
  run-Framed avbl_command param e = Same-Framed P _ (handle_avbl-Same env param)
  run-Framed abor_command param e = Same-Framed P _ (handle_abor-Same env param)
  run-Framed size_command param e = Same-Framed P _ (handle_size-Same env param)
  run-Framed mdtm_command param e = Same-Framed P _ (handle_mdtm-Same env param)
  run-Framed mfmt_command param e = Same-Framed P _ (handle_mfmt-Same env param)
  run-Framed retr_command param e = Same-Framed P _ (handle_retr-Same env param)
  run-Framed stor_command param e = Same-Framed P _ (handle_stor-Same env param)
  run-Framed appe_command param e = Same-Framed P _ (handle_appe-Same env param)
  run-Framed dele_command param e = Same-Framed P _ (handle_dele-Same env param)
  run-Framed rnfr_command param e = Same-Framed P _ (handle_rnfr-Same env param)
  run-Framed rnto_command param e = Same-Framed P _ (handle_rnto-Same env param)
  run-Framed allo_command param e = Same-Framed P _ (handle_allo-Same env param)
  run-Framed rest_command param e = Same-Framed P _ (handle_rest-Same env param)
  run-Framed mlst_command param e = Same-Framed P _ (handle_mlst-Same env param)
  run-Framed mkd_command param e = Same-Framed P _ (handle_mkd-Same env param)
  run-Framed rmd_command param e = Same-Framed P _ (handle_rmd-Same env param)
  run-Framed pwd_command param e = Same-Framed P _ (handle_pwd-Same env param)
  run-Framed quit_command param e = Same-Framed P _ (handle_quit-Same env param)
  run-Framed port_command param e = Same-Framed P _ (handle_port-Same env param)
  run-Framed feat_command param e = Same-Framed P _ (handle_feat-Same env param)
  run-Framed opts_command param e = Same-Framed P _ (handle_opts-Same env param)
  run-Framed site_command param e = Same-Framed P _ (handle_site-Same env param)
  run-Framed hash_command param e = Same-Framed P _ (handle_hash-Same env param)
  run-Framed comb_command param e = Same-Framed P _ (handle_comb-Same env param)
  run-Framed prot_command param e = Same-Framed P _ (handle_prot-Same param)
  run-Framed pbsz_command param e = Same-Framed P _ (handle_pbsz-Same param)
  run-Framed clnt_command param e = Same-Framed P _ (handle_clnt-Same param)
  run-Framed noop_command param e = Same-Framed P _ (handle_noop-Same param)
  run-Framed type_command param e = Same-Framed P _ (handle_type-Same param)
  run-Framed mode_command param e = Same-Framed P _ (handle_mode-Same param)
  run-Framed not_implemented_command param e = Same-Framed P _ (handle_not_implemented-Same param)
  run-Framed stat_command param e = handle_stat-Framed env P tame param
  run-Framed nlst_command param e = handle_nlst-Framed env P tame param
  run-Framed list_command param e = handle_list-Framed env P tame param
  run-Framed mlsd_command param e = handle_mlsd-Framed env P tame param
  run-Framed pasv_command param e = handle_pasv-Framed env P tame param
  run-Framed cwd_command param e = handle_cwd-Framed param
  run-Framed cdup_command param e = handle_cdup-Framed param
  run-Framed crc32_of_command param e =
      Same-Framed P _ (handle_generic_hash-Same env param crc32 true)
  run-Framed md5_of_command param e = Same-Framed P _ (handle_generic_hash-Same env param md5 true)
  run-Framed sha1_of_command param e =
      Same-Framed P _ (handle_generic_hash-Same env param sha1 true)
  run-Framed sha256_of_command param e =
      Same-Framed P _ (handle_generic_hash-Same env param sha256 true)
  run-Framed sha512_of_command param e =
      Same-Framed P _ (handle_generic_hash-Same env param sha512 true)

  -- Every command.
  pub run-Stays : (h : Handler) (param : Bytes) → Leaves (Stays P) (run env h param)
  unfolding run
  run-Stays user_command param = handle_user-Stays env P tame param
  run-Stays pass_command param = handle_pass-Stays env P tame param
  run-Stays h param = Framed-Stays env P tame _ (run-Framed h param refl)
