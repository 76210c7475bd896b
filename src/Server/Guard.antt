-- ===== src/Server/Guard.antt =====
-- What a client that is not logged in can reach.
use ftpserverlib.Prelude.{
  Bool, true, false, not, List, [], ◌∷◌, some, ◌≡◌, ◌≢◌, refl, sym, ◌∙◌, arith, if◌then◌else◌,
}
use ftpserverlib.Text.{Bytes}
use ftpserverlib.Session.{Env, Session, panic}
use ftpserverlib.Auth.{handle_user, handle_pass}
use ftpserverlib.Misc.{
  handle_auth, handle_prot, handle_pbsz, handle_noop, handle_clnt, handle_quit, handle_opts,
  handle_opts_hash, handle_syst, handle_feat, feature_lines, feat_end, feat_with,
}
use ftpserverlib.Server.Commands.{
  Handler, user_command, pass_command, auth_command, prot_command, pbsz_command, clnt_command,
  feat_command, syst_command, noop_command, opts_command, quit_command, CommandDescription,
  commands_map, run,
}
use ftpserverlib.Server.Table.{every, lookup_command-every}
use ftpserverlib.Server.Dispatch.{lookup_command}

-- The methods that are open to all.
abbrev pub is_open_handler : Handler → Bool
is_open_handler user_command = true
is_open_handler pass_command = true
is_open_handler auth_command = true
is_open_handler prot_command = true
is_open_handler pbsz_command = true
is_open_handler clnt_command = true
is_open_handler feat_command = true
is_open_handler syst_command = true
is_open_handler noop_command = true
is_open_handler opts_command = true
is_open_handler quit_command = true
is_open_handler _ = false

abbrev same : Bool → Bool → Bool
same b c = if b then c else not c

-- An entry that is open just for these methods.
abbrev told : CommandDescription → Bool
told d = same d.is_open (is_open_handler d.handler)

commands_map-told : every told commands_map ≡ true
unfolding commands_map every
commands_map-told = refl

lookup_command-told :
    (name : Bytes) (d : CommandDescription)
    → (lookup_command name).1 ≡ some d
    → d.is_open ≡ is_open_handler d.handler
lookup_command-told name d f =
    let t = lookup_command-every told name d commands_map-told f in ground arith

module _ {W : Type 0} (env : Env W) where
  feat_end-no_panic :
      (names : List Bytes) (text : Bytes) (s : Session W) → (feat_end env names s).0 ≢ panic text
  unfolding feat_end feature_lines
  feat_end-no_panic [] text s = ground arith
  feat_end-no_panic (f ∷ names) text s = feat_end-no_panic names text _

  feat_with-no_panic :
      (hash tls : Bool) (text : Bytes) (s : Session W) → (feat_with env hash tls s).0 ≢ panic text
  unfolding feat_with
  feat_with-no_panic false tls text s = feat_end-no_panic _ text _
  feat_with-no_panic true tls text s = feat_end-no_panic _ text _

  run-no_panic :
      (h : Handler) (param text : Bytes) (s : Session W)
      → is_open_handler h ≡ true
      → (run env h param s).0 ≢ panic text
  unfolding run handle_user handle_pass handle_auth handle_prot handle_pbsz handle_noop handle_clnt
      handle_quit handle_feat handle_opts handle_opts_hash handle_syst
  run-no_panic user_command param text s o = ground arith
  run-no_panic pass_command param text s o = ground arith
  run-no_panic auth_command param text s o = ground arith
  run-no_panic prot_command param text s o = ground arith
  run-no_panic pbsz_command param text s o = ground arith
  run-no_panic clnt_command param text s o = ground arith
  run-no_panic feat_command param text s o = feat_with-no_panic env.settings.enable_hash _ text _
  run-no_panic syst_command param text s o = ground arith
  run-no_panic noop_command param text s o = ground arith
  run-no_panic opts_command param text s o = ground arith
  run-no_panic quit_command param text s o = ground arith
  run-no_panic _ param text s o = ground arith

  -- A command that is open to clients without a login never panics, under whatever name it was
  -- found and in whatever state, so also where the client has no driver to call.
  pub open_command-no_panic :
      (name param text : Bytes) (d : CommandDescription) (s : Session W)
      → (lookup_command name).1 ≡ some d
      → d.is_open ≡ true
      → (run env d.handler param s).0 ≢ panic text
  open_command-no_panic name param text d s f o =
      run-no_panic d.handler param text s (sym (lookup_command-told name d f) ∙ o)
