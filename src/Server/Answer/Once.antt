-- ===== src/Server/Answer/Once.antt =====
-- All commands but ABOR, STAT and MLST, and what handleCommand makes of them.
use ftpserverlib.Prelude.{
  not, ◌&&◌, ◌||◌, Option-cases, Bool-cases, inl, inr, ◌+◌, Bool, true, false, Option, none, some,
  ◌≡◌, refl, arith,
}
use ftpserverlib.Text.{Bytes, to_upper}
use ftpserverlib.Session.{Env, Session, M, done, crc32, md5, sha1, sha256, sha512}
use ftpserverlib.Transfer.Replies.{finals}
use ftpserverlib.Server.Commands.{
  commands_map, Handler, CommandDescription, run, user_command, pass_command,
  not_implemented_command, auth_command, prot_command, pbsz_command, clnt_command, feat_command,
  syst_command, noop_command, opts_command, quit_command, avbl_command, abor_command, size_command,
  stat_command, mdtm_command, mfmt_command, retr_command, stor_command, appe_command, dele_command,
  rnfr_command, rnto_command, allo_command, rest_command, site_command, hash_command,
  crc32_of_command, md5_of_command, sha1_of_command, sha256_of_command, sha512_of_command,
  comb_command, cwd_command, pwd_command, cdup_command, nlst_command, list_command, mlsd_command,
  mlst_command, mkd_command, rmd_command, type_command, mode_command, pasv_command, port_command,
}
use ftpserverlib.Server.Dispatch.{
  parse_line, lookup_command, execute_command_fn, start, admitted, dispatch, handle_command,
}
use ftpserverlib.Server.Frame.Loop.{asked}
use ftpserverlib.Server.Table.{every, lookup_command-every}
use ftpserverlib.Server.Answer.{Answers, AnswersReady, ListsOpen, given}
use ftpserverlib.Server.Answer.Transfers.{
  handle_stor-AnswersReady, handle_appe-AnswersReady, handle_retr-AnswersReady,
}
use ftpserverlib.Server.Answer.Listing.{
  handle_list-AnswersReady, handle_nlst-AnswersReady, handle_mlsd-AnswersReady,
}
use ftpserverlib.Server.Answer.Simple.{
  handle_mkd-Answers, handle_rmd-Answers, handle_pwd-Answers, handle_cwd-Answers,
  handle_cdup-Answers, handle_dele-Answers, handle_rnfr-Answers, handle_rnto-Answers,
  handle_size-Answers, handle_allo-Answers, handle_rest-Answers, handle_mdtm-Answers,
  handle_mfmt-Answers, handle_port-Answers, handle_auth-Answers, handle_syst-Answers,
  handle_avbl-Answers, handle_quit-Answers, handle_opts-Answers, handle_prot-Answers,
  handle_pbsz-Answers, handle_noop-Answers, handle_clnt-Answers, handle_mode-Answers,
  handle_type-Answers, handle_not_implemented-Answers,
}
use ftpserverlib.Server.Answer.Parts.{
  handle_user-Answers, handle_pass-Answers, handle_feat-Answers, handle_site-Answers,
  handle_comb-Answers,
}
use ftpserverlib.Server.Answer.Hash.{
  handle_hash-Answers, handle_pasv-Answers, handle_generic_hash-Answers,
}

-- The transfers, which are answered by 150 and then once more.
abbrev pub is_transfer : Handler → Bool
is_transfer retr_command = true
is_transfer stor_command = true
is_transfer appe_command = true
is_transfer nlst_command = true
is_transfer list_command = true
is_transfer mlsd_command = true
is_transfer _ = false

-- ABOR answers for the transfer as well, and STAT and MLST write lines.
abbrev pub is_answered : Handler → Bool
is_answered abor_command = false
is_answered stat_command = false
is_answered mlst_command = false
is_answered _ = true

abbrev is_single : Handler → Bool
is_single h = is_answered h && not (is_transfer h)

-- The transfers start a transfer, and only for a client that is logged in.
abbrev starts : CommandDescription → Bool
starts d = not (is_transfer d.handler) || (d.transfer_related && not d.is_open)

commands_map-starts : every starts commands_map ≡ true
unfolding commands_map every
commands_map-starts = refl

module _ {W : Type 0} (env : Env W) where
  run-Answers : (h : Handler) (param : Bytes) → is_single h ≡ true → Answers (run env h param)
  unfolding run
  run-Answers mkd_command param e = handle_mkd-Answers env param
  run-Answers rmd_command param e = handle_rmd-Answers env param
  run-Answers pwd_command param e = handle_pwd-Answers env param
  run-Answers cwd_command param e = handle_cwd-Answers env param
  run-Answers cdup_command param e = handle_cdup-Answers env param
  run-Answers dele_command param e = handle_dele-Answers env param
  run-Answers rnfr_command param e = handle_rnfr-Answers env param
  run-Answers rnto_command param e = handle_rnto-Answers env param
  run-Answers size_command param e = handle_size-Answers env param
  run-Answers allo_command param e = handle_allo-Answers env param
  run-Answers rest_command param e = handle_rest-Answers env param
  run-Answers mdtm_command param e = handle_mdtm-Answers env param
  run-Answers mfmt_command param e = handle_mfmt-Answers env param
  run-Answers port_command param e = handle_port-Answers env param
  run-Answers auth_command param e = handle_auth-Answers env param
  run-Answers syst_command param e = handle_syst-Answers env param
  run-Answers avbl_command param e = handle_avbl-Answers env param
  run-Answers quit_command param e = handle_quit-Answers env param
  run-Answers opts_command param e = handle_opts-Answers env param
  run-Answers user_command param e = handle_user-Answers env param
  run-Answers pass_command param e = handle_pass-Answers env param
  run-Answers feat_command param e = handle_feat-Answers env param
  run-Answers site_command param e = handle_site-Answers env param
  run-Answers comb_command param e = handle_comb-Answers env param
  run-Answers hash_command param e = handle_hash-Answers env param
  run-Answers pasv_command param e = handle_pasv-Answers env param
  run-Answers prot_command param e = handle_prot-Answers param
  run-Answers pbsz_command param e = handle_pbsz-Answers param
  run-Answers noop_command param e = handle_noop-Answers param
  run-Answers clnt_command param e = handle_clnt-Answers param
  run-Answers mode_command param e = handle_mode-Answers param
  run-Answers type_command param e = handle_type-Answers param
  run-Answers not_implemented_command param e = handle_not_implemented-Answers param
  run-Answers crc32_of_command param e = handle_generic_hash-Answers env param crc32 true
  run-Answers md5_of_command param e = handle_generic_hash-Answers env param md5 true
  run-Answers sha1_of_command param e = handle_generic_hash-Answers env param sha1 true
  run-Answers sha256_of_command param e = handle_generic_hash-Answers env param sha256 true
  run-Answers sha512_of_command param e = handle_generic_hash-Answers env param sha512 true
  run-Answers stat_command param e = absurd (ground arith)
  run-Answers mlst_command param e = absurd (ground arith)
  run-Answers abor_command param e = absurd (ground arith)
  run-Answers retr_command param e = absurd (ground arith)
  run-Answers stor_command param e = absurd (ground arith)
  run-Answers appe_command param e = absurd (ground arith)
  run-Answers nlst_command param e = absurd (ground arith)
  run-Answers list_command param e = absurd (ground arith)
  run-Answers mlsd_command param e = absurd (ground arith)

  run-AnswersReady :
      (lists_open : ListsOpen env) (h : Handler) (param : Bytes)
      → is_transfer h ≡ true
      → AnswersReady (run env h param)
  unfolding run
  run-AnswersReady lists_open retr_command param e = handle_retr-AnswersReady env param
  run-AnswersReady lists_open stor_command param e = handle_stor-AnswersReady env param
  run-AnswersReady lists_open appe_command param e = handle_appe-AnswersReady env param
  run-AnswersReady lists_open nlst_command param e = handle_nlst-AnswersReady env lists_open param
  run-AnswersReady lists_open list_command param e = handle_list-AnswersReady env lists_open param
  run-AnswersReady lists_open mlsd_command param e = handle_mlsd-AnswersReady env lists_open param
  run-AnswersReady lists_open _ param e = absurd (ground arith)

  abbrev Once : M W (Unit {0}) → Session W → Type 0
  Once m s = ((m s).0 ≡ done tt) × (finals (m s).1.log ≡ finals s.log + 1)

  execute_command_fn-Once :
      (d : CommandDescription) (param : Bytes) (s : Session W)
      → finals (run env d.handler param s).1.log
        ≡ finals s.log + given (run env d.handler param s).0
      → Once (execute_command_fn env d param) s
  unfolding execute_command_fn
  execute_command_fn-Once d param s one = ground arith

  start-Once :
      (b : Bool) (d : CommandDescription) (param : Bytes) (s : Session W)
      → Answers (run env d.handler param)
      → Once (start env b d param) s
  start-Once true d param s one =
      let s1 = record s { client = record (s.client) { is_transfer_aborted = false } } in
      execute_command_fn-Once d param s1 (one.at s1)
  start-Once false d param s one = execute_command_fn-Once d param s (one.at s)

  admitted-Once :
      (without_login : Bool) (command : Bytes) (d : CommandDescription) (param : Bytes)
      (s : Session W)
      → Answers (run env d.handler param)
      → Once (admitted env without_login command d param) s
  admitted-Once true command d param s one = ground arith
  admitted-Once false command d param s one =
      start-Once d.transfer_related d param
        (record s { client = record (s.client) { command = command } }) one

  -- a transfer, for which the aborted mark is taken back first
  transfer-Once :
      (lists_open : ListsOpen env) (command : Bytes) (d : CommandDescription) (param : Bytes)
      (s : Session W)
      → is_transfer d.handler ≡ true
      → d.transfer_related ≡ true
      → d.is_open ≡ false
      → Once (dispatch env (command, some d) param) s
  transfer-Once lists_open command d param s t related closed =
      elim (Option-cases s.client.driver) [
        | inl no_driver ↦ ground arith
        | inr (n, is_driver) ↦
            let s1 = record s {
              client = record (s.client) { command = command; is_transfer_aborted = false };
            } in
            let one =
              execute_command_fn-Once d param s1
                ((run-AnswersReady lists_open d.handler param t).at s1 n is_driver refl) in
            ground arith
      ]

  dispatch-Once :
      (lists_open : ListsOpen env) (found : Bytes × Option CommandDescription) (param : Bytes)
      (s : Session W)
      → ((d : CommandDescription) → found.1 ≡ some d → is_answered d.handler ≡ true)
      → ((d : CommandDescription) → found.1 ≡ some d → starts d ≡ true)
      → Once (dispatch env found param) s
  dispatch-Once lists_open (command, none) param s answered started = ground arith
  dispatch-Once lists_open (command, some d) param s answered started =
      let a = answered d refl in
      let t = started d refl in
      elim (Bool-cases (is_transfer d.handler)) [
        | inl transfer ↦
            transfer-Once lists_open command d param s transfer (ground arith) (ground arith)
        | inr single ↦
            admitted-Once _ command d param s (run-Answers d.handler param (ground arith))
      ]

  -- Every line is answered by exactly one final reply, in whatever state of the connection:
  -- whether the command is unknown, refused or run, and whether it succeeds, fails or calls a driver
  -- that the client does not have, which panics. The drivers do not panic, and ReadDir does not close
  -- the connection, after which a transfer stays without its last reply. Left out are ABOR, which
  -- answers for the transfer as well, and STAT and MLST, which write their answers line by line.
  -- Commands run one after the other. handleCommand itself always returns.
  pub handle_command-once :
      (line : Bytes) (s : Session W)
      → ListsOpen env
      → ((d : CommandDescription) → asked line ≡ some d → is_answered d.handler ≡ true)
      → ((handle_command env line s).0 ≡ done tt)
        × (finals (handle_command env line s).1.log ≡ finals s.log + 1)
  unfolding handle_command
  handle_command-once line s lists_open answered =
      dispatch-Once lists_open (lookup_command (to_upper (parse_line line).0)) (parse_line line).1 s
        answered (λ d found. lookup_command-every starts _ d commands_map-starts found)
