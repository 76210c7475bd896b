-- ===== src/Server/Commands.antt =====
-- CommandDescription and commandsMap of server.go.
use ftpserverlib.Prelude.{Bool, true, false, List, [], ◌∷◌, Option, none, some, if◌then◌else◌}
use ftpserverlib.Text.{Bytes, codes, equal}
use ftpserverlib.Errors.{Error}
use ftpserverlib.Session.{Env, M, crc32, md5, sha1, sha256, sha512}
use ftpserverlib.Transfer.{handle_abor}
use ftpserverlib.Dirs.{
  handle_cwd, handle_mkd, handle_rmd, handle_cdup, handle_pwd, handle_list, handle_nlst,
  handle_mlsd,
}
use ftpserverlib.Files.{
  handle_stor, handle_appe, handle_retr, handle_comb, handle_dele, handle_rnfr, handle_rnto,
  handle_size, handle_mlst, handle_allo, handle_rest, handle_mdtm, handle_mfmt, handle_hash,
  handle_generic_hash,
}
use ftpserverlib.Auth.{handle_user, handle_pass}
use ftpserverlib.Data.{handle_pasv, handle_port}
use ftpserverlib.Misc.{
  handle_auth, handle_prot, handle_pbsz, handle_noop, handle_clnt, handle_mode, handle_quit,
  handle_not_implemented, handle_opts, handle_type, handle_syst, handle_site, handle_feat,
  handle_avbl, handle_stat,
}

-- The methods that the map names.
pub data Handler : Type 0 where
  user_command pass_command not_implemented_command auth_command prot_command pbsz_command : Handler
  clnt_command feat_command syst_command noop_command opts_command quit_command : Handler
  avbl_command abor_command size_command stat_command mdtm_command mfmt_command : Handler
  retr_command stor_command appe_command dele_command rnfr_command rnto_command : Handler
  allo_command rest_command site_command hash_command crc32_of_command md5_of_command : Handler
  sha1_of_command sha256_of_command sha512_of_command comb_command cwd_command pwd_command : Handler
  cdup_command nlst_command list_command mlsd_command mlst_command mkd_command : Handler
  rmd_command type_command mode_command pasv_command port_command : Handler

pub record CommandDescription : Type 0 where
  pub is_open : Bool
  pub transfer_related : Bool
  pub special_action : Bool
  pub handler : Handler

abbrev logged_in_only : Handler → CommandDescription
logged_in_only h = record {
  is_open = false;
  transfer_related = false;
  special_action = false;
  handler = h;
}

abbrev open_to_all : Handler → CommandDescription
open_to_all h = record {
  is_open = true;
  transfer_related = false;
  special_action = false;
  handler = h;
}

abbrev transfers : Handler → CommandDescription
transfers h = record {
  is_open = false;
  transfer_related = true;
  special_action = false;
  handler = h;
}

abbrev special : Handler → CommandDescription
special h = record { is_open = false; transfer_related = false; special_action = true; handler = h }

abbrev open_and_special : Handler → CommandDescription
open_and_special h = record {
  is_open = true;
  transfer_related = false;
  special_action = true;
  handler = h;
}

unfoldable pub commands_map : List (Bytes × CommandDescription)
commands_map =
    (codes "USER", open_to_all user_command)
    ∷ (codes "PASS", open_to_all pass_command)
    ∷ (codes "ACCT", logged_in_only not_implemented_command)
    ∷ (codes "ADAT", logged_in_only not_implemented_command)
    ∷ (codes "AUTH", open_to_all auth_command)
    ∷ (codes "PROT", open_to_all prot_command)
    ∷ (codes "PBSZ", open_to_all pbsz_command)
    ∷ (codes "CCC", logged_in_only not_implemented_command)
    ∷ (codes "CONF", logged_in_only not_implemented_command)
    ∷ (codes "ENC", logged_in_only not_implemented_command)
    ∷ (codes "MIC", logged_in_only not_implemented_command)
    ∷ (codes "CLNT", open_to_all clnt_command)
    ∷ (codes "FEAT", open_to_all feat_command)
    ∷ (codes "SYST", open_to_all syst_command)
    ∷ (codes "NOOP", open_to_all noop_command)
    ∷ (codes "OPTS", open_to_all opts_command)
    ∷ (codes "QUIT", open_and_special quit_command)
    ∷ (codes "AVBL", logged_in_only avbl_command)
    ∷ (codes "ABOR", special abor_command)
    ∷ (codes "CSID", logged_in_only not_implemented_command)
    ∷ (codes "HELP", logged_in_only not_implemented_command)
    ∷ (codes "HOST", logged_in_only not_implemented_command)
    ∷ (codes "LANG", logged_in_only not_implemented_command)
    ∷ (codes "XRSQ", logged_in_only not_implemented_command)
    ∷ (codes "XSEM", logged_in_only not_implemented_command)
    ∷ (codes "XSEN", logged_in_only not_implemented_command)
    ∷ (codes "SIZE", logged_in_only size_command)
    ∷ (codes "DSIZ", logged_in_only not_implemented_command)
    ∷ (codes "STAT", special stat_command)
    ∷ (codes "MDTM", logged_in_only mdtm_command)
    ∷ (codes "MFMT", logged_in_only mfmt_command)
    ∷ (codes "MFF", logged_in_only not_implemented_command)
    ∷ (codes "MFCT", logged_in_only not_implemented_command)
    ∷ (codes "RETR", transfers retr_command)
    ∷ (codes "STOR", transfers stor_command)
    ∷ (codes "STOU", logged_in_only not_implemented_command)
    ∷ (codes "STRU", logged_in_only not_implemented_command)
    ∷ (codes "APPE", transfers appe_command)
    ∷ (codes "DELE", logged_in_only dele_command)
    ∷ (codes "RNFR", logged_in_only rnfr_command)
    ∷ (codes "RNTO", logged_in_only rnto_command)
    ∷ (codes "ALLO", logged_in_only allo_command)
    ∷ (codes "REST", logged_in_only rest_command)
    ∷ (codes "SITE", logged_in_only site_command)
    ∷ (codes "HASH", logged_in_only hash_command)
    ∷ (codes "XCRC", logged_in_only crc32_of_command)
    ∷ (codes "MD5", logged_in_only md5_of_command)
    ∷ (codes "XMD5", logged_in_only md5_of_command)
    ∷ (codes "XSHA", logged_in_only sha1_of_command)
    ∷ (codes "XSHA1", logged_in_only sha1_of_command)
    ∷ (codes "XSHA256", logged_in_only sha256_of_command)
    ∷ (codes "XSHA512", logged_in_only sha512_of_command)
    ∷ (codes "COMB", logged_in_only comb_command)
    ∷ (codes "THMB", logged_in_only not_implemented_command)
    ∷ (codes "XRCP", logged_in_only not_implemented_command)
    ∷ (codes "CWD", logged_in_only cwd_command)
    ∷ (codes "PWD", logged_in_only pwd_command)
    ∷ (codes "XCWD", logged_in_only cwd_command)
    ∷ (codes "XPWD", logged_in_only pwd_command)
    ∷ (codes "CDUP", logged_in_only cdup_command)
    ∷ (codes "NLST", transfers nlst_command)
    ∷ (codes "LIST", transfers list_command)
    ∷ (codes "MLSD", transfers mlsd_command)
    ∷ (codes "MLST", logged_in_only mlst_command)
    ∷ (codes "MKD", logged_in_only mkd_command)
    ∷ (codes "RMD", logged_in_only rmd_command)
    ∷ (codes "RMDA", logged_in_only not_implemented_command)
    ∷ (codes "XMKD", logged_in_only mkd_command)
    ∷ (codes "XRMD", logged_in_only rmd_command)
    ∷ (codes "SMNT", logged_in_only not_implemented_command)
    ∷ (codes "XCUP", logged_in_only not_implemented_command)
    ∷ (codes "TYPE", logged_in_only type_command)
    ∷ (codes "MODE", logged_in_only mode_command)
    ∷ (codes "PASV", logged_in_only pasv_command)
    ∷ (codes "EPSV", logged_in_only pasv_command)
    ∷ (codes "LPSV", logged_in_only not_implemented_command)
    ∷ (codes "SPSV", logged_in_only not_implemented_command)
    ∷ (codes "PORT", logged_in_only port_command)
    ∷ (codes "LRPT", logged_in_only not_implemented_command)
    ∷ (codes "EPRT", logged_in_only port_command)
    ∷ (codes "REIN", logged_in_only not_implemented_command)
    ∷ []

unfoldable pub find_command : Bytes → List (Bytes × CommandDescription) → Option CommandDescription
find_command name [] = none
find_command name ((key, d) ∷ commands) =
    if equal name key then some d else find_command name commands

abbrev pub special_attention_commands : List Bytes
special_attention_commands = codes "ABOR" ∷ codes "STAT" ∷ codes "QUIT" ∷ []

module _ {W : Type 0} (env : Env W) where
  -- The method of a description.
  unfoldable pub run : Handler → Bytes → M W (Option Error)
  run user_command param = handle_user env param
  run pass_command param = handle_pass env param
  run not_implemented_command param = handle_not_implemented param
  run auth_command param = handle_auth env param
  run prot_command param = handle_prot param
  run pbsz_command param = handle_pbsz param
  run clnt_command param = handle_clnt param
  run feat_command param = handle_feat env param
  run syst_command param = handle_syst env param
  run noop_command param = handle_noop param
  run opts_command param = handle_opts env param
  run quit_command param = handle_quit env param
  run avbl_command param = handle_avbl env param
  run abor_command param = handle_abor env param
  run size_command param = handle_size env param
  run stat_command param = handle_stat env param
  run mdtm_command param = handle_mdtm env param
  run mfmt_command param = handle_mfmt env param
  run retr_command param = handle_retr env param
  run stor_command param = handle_stor env param
  run appe_command param = handle_appe env param
  run dele_command param = handle_dele env param
  run rnfr_command param = handle_rnfr env param
  run rnto_command param = handle_rnto env param
  run allo_command param = handle_allo env param
  run rest_command param = handle_rest env param
  run site_command param = handle_site env param
  run hash_command param = handle_hash env param
  run crc32_of_command param = handle_generic_hash env param crc32 true
  run md5_of_command param = handle_generic_hash env param md5 true
  run sha1_of_command param = handle_generic_hash env param sha1 true
  run sha256_of_command param = handle_generic_hash env param sha256 true
  run sha512_of_command param = handle_generic_hash env param sha512 true
  run comb_command param = handle_comb env param
  run cwd_command param = handle_cwd env param
  run pwd_command param = handle_pwd env param
  run cdup_command param = handle_cdup env param
  run nlst_command param = handle_nlst env param
  run list_command param = handle_list env param
  run mlsd_command param = handle_mlsd env param
  run mlst_command param = handle_mlst env param
  run mkd_command param = handle_mkd env param
  run rmd_command param = handle_rmd env param
  run type_command param = handle_type param
  run mode_command param = handle_mode param
  run pasv_command param = handle_pasv env param
  run port_command param = handle_port env param
