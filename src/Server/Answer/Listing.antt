-- ===== src/Server/Answer/Listing.antt =====
-- LIST, NLST and MLSD, which are answered once if no ABOR comes between.
use ftpserverlib.Prelude.{
  ℕ, ◌+◌, ◌≤◌, Bool, true, false, ◌++◌, List, [], ◌∷◌, Option, none, some, ◌≡◌, ◌≢◌, refl, ◌∙◌, ap,
  arith, inl, inr, Option-cases,
}
use ftpserverlib.Text.{Bytes, codes}
use ftpserverlib.Paths.{abs_path, get_relative_path}
use ftpserverlib.Errors.{Error}
use ftpserverlib.Session.{Env, Session, M, Outcome-cases, panic, Result, ok, err, FileInfo, ◌>>=◌}
use ftpserverlib.Session.{apply_context-Kept, apply_context-open}
use ftpserverlib.Transfer.{transfer_open}
use ftpserverlib.Transfer.Replies.{finals}
use ftpserverlib.Dirs.{
  Files, list_read_dir, list_found, list_stat, list_at, list_param, get_file_list, write_all,
  dir_transfer_list, dir_transfer_nlst, dir_transfer_mlsd, list_error, list_command, handle_list,
  handle_nlst, handle_mlsd, handle_mlsd_at, list_lines, mlsd_lines, nlst_lines, check_list_args,
  check_list_args_loop,
}
use ftpserverlib.Server.Answer.{AnswersReady, ListsOpen, given}
use ftpserverlib.Server.Answer.Transfers.{transfer_open-once, transfer_close-once}

-- A method that writes nothing, keeps what a transfer command needs, and returns.
abbrev Quiet : {W A : Type 0} → M W A → Session W → Type 0
Quiet m s =
    ((m s).1.client.driver ≡ s.client.driver)
    × ((m s).1.client.is_transfer_aborted ≡ s.client.is_transfer_aborted)
    × ((m s).1.log ≡ s.log)
    × ((text : Bytes) → (m s).0 ≢ panic text)

module _ {W : Type 0} (env : Env W) (lists_open : ListsOpen env) where
  list_read_dir-Quiet :
      (own : Bool) (n : ℕ) (path : Bytes) (s : Session W)
      → Quiet (list_read_dir env own (env.main.driver n) path) s
  list_read_dir-Quiet true n path s =
      let (r, calls, w) = (env.main.driver n).read_dir path s.world in
      let kept = apply_context-Kept env calls s.client w in
      let still = apply_context-open env calls s.client w (lists_open n path s.world) in
      (kept.1, still.0, refl, λ text. ground arith)
  list_read_dir-Quiet false n path s =
      (ground arith, ground arith, ground arith, λ text. ground arith)

  list_found-Quiet :
      (is_dir allowed : Bool) (n : ℕ) (path : Bytes) (info : FileInfo) (s : Session W)
      → Quiet (list_found env is_dir allowed (env.main.driver n) path info) s
  list_found-Quiet true allowed n path info s = list_read_dir-Quiet _ n path s
  list_found-Quiet false true n path info s = (refl, refl, refl, λ text. ground arith)
  list_found-Quiet false false n path info s = (refl, refl, refl, λ text. ground arith)

  list_stat-Quiet :
      (allowed : Bool) (n : ℕ) (path : Bytes) (r : Result FileInfo) (s : Session W)
      → Quiet (list_stat env allowed (env.main.driver n) path r) s
  list_stat-Quiet allowed n path (err e) s = (refl, refl, refl, λ text. ground arith)
  list_stat-Quiet allowed n path (ok info) s = list_found-Quiet info.is_dir allowed n path info s

  list_param-Quiet :
      (disabled : Bool) (param : Bytes) (n : ℕ) (s : Session W)
      → s.client.driver ≡ some n
      → ((list_param env disabled param s).1.client ≡ s.client)
        × ((list_param env disabled param s).1.log ≡ s.log)
        × ((text : Bytes) → (list_param env disabled param s).0 ≢ panic text)
  unfolding check_list_args check_list_args_loop
  list_param-Quiet true param n s d = (refl, refl, λ text. ground arith)
  list_param-Quiet false param n s d = (ground arith, ground arith, λ text. ground arith)

  list_at-Quiet :
      (allowed : Bool) (param : Bytes) (n : ℕ) (s : Session W)
      → s.client.driver ≡ some n
      → Quiet (list_at env allowed param) s
  list_at-Quiet allowed param n s d =
      let path = abs_path s.client.path param in
      let (r, w) = (env.main.driver n).stat path s.world in
      let s1 = record s { world = w; client = record (s.client) { list_path = path } } in
      let (same, still, quiet, ends) = list_stat-Quiet allowed n path r s1 in
      (ground arith, ground arith, ground arith, λ text. let e = ends text in ground arith)

  get_file_list-Quiet :
      (param : Bytes) (allowed : Bool) (n : ℕ) (s : Session W)
      → s.client.driver ≡ some n
      → Quiet (get_file_list env param allowed) s
  unfolding get_file_list
  get_file_list-Quiet param allowed n s d =
      let disabled = env.settings.disable_list_args in
      let (same, quiet, ends) = list_param-Quiet disabled param n s d in
      let (r, s1) = list_param env disabled param s in
      elim (Outcome-cases r) [
        | inr (text, is_panic) ↦ absurd (ends text is_panic)
        | inl (p, is_done) ↦
            let (same', still, quiet', ends') =
              list_at-Quiet allowed p n s1 (ap (λ c. c.driver) same ∙ d) in
            (ground arith, ground arith, ground arith, λ text. let e = ends' text in ground arith)
      ]

  -- the same for what sends a list, which may fail to end
  abbrev Sends : (ℕ → M W (Option Error)) → Type 0
  Sends send =
      (conn n : ℕ) (s : Session W)
      → s.client.driver ≡ some n
      → ((send conn s).1.client ≡ s.client) × ((send conn s).1.log ≡ s.log)

  write_all-Sends : (ls : List Bytes) → Sends (λ conn. write_all env conn ls)
  unfolding write_all
  write_all-Sends [] conn n s d = (refl, refl)
  write_all-Sends (l ∷ ls) conn n s d =
      let ((written, e), w) = env.net.write conn l s.world in
      let (same, quiet) = write_all-Sends ls conn n (record s { world = w }) d in
      (ground arith, ground arith)

  dir_transfer_list-Sends :
      (files : List FileInfo) → Sends (λ conn. dir_transfer_list env conn files)
  unfolding dir_transfer_list
  dir_transfer_list-Sends [] conn n s d = (ground arith, ground arith)
  dir_transfer_list-Sends (f ∷ files) conn n s d =
      let (same, quiet) =
        write_all-Sends (list_lines env s.client.connected_at (f ∷ files)) conn n s d in
      (ground arith, ground arith)

  dir_transfer_mlsd-Sends :
      (files : List FileInfo) → Sends (λ conn. dir_transfer_mlsd env conn files)
  unfolding dir_transfer_mlsd
  dir_transfer_mlsd-Sends [] conn n s d = (ground arith, ground arith)
  dir_transfer_mlsd-Sends (f ∷ files) conn n s d =
      let (same, quiet) = write_all-Sends (mlsd_lines env (f ∷ files)) conn n s d in
      (ground arith, ground arith)

  dir_transfer_nlst-Sends :
      (files : List FileInfo) (parent_dir : Bytes)
      → Sends (λ conn. dir_transfer_nlst env conn files parent_dir)
  unfolding dir_transfer_nlst
  dir_transfer_nlst-Sends [] parent_dir conn n s d = (ground arith, ground arith)
  dir_transfer_nlst-Sends (f ∷ files) parent_dir conn n s d =
      elim (Option-cases (get_relative_path s.client.path parent_dir)) [
        | inl endless ↦ (ground arith, ground arith)
        | inr (relative, is) ↦
            let (same, quiet) = write_all-Sends (nlst_lines env relative (f ∷ files)) conn n s d in
            (ground arith, ground arith)
      ]

  list_command-once :
      (info : Bytes) (code : ℕ) (e : Option Error) (send : ℕ → M W (Option Error)) (n : ℕ)
      (s : Session W)
      → 200 ≤ code
      → Sends send
      → s.client.driver ≡ some n
      → s.client.is_transfer_aborted ≡ false
      → finals (list_command env info code e send s).1.log
        ≡ finals s.log + given (list_command env info code e send s).0
  list_command-once info code (some e) send n s final sends d a = ground arith
  list_command-once info code none send n s final sends d a =
      let (opens, refuses, ends) = transfer_open-once env info s a in
      let (r, s1) = transfer_open env info s in
      elim (Outcome-cases r) [
        | inr (text, is_panic) ↦ absurd (ends text is_panic)
        | inl (err e, is_done) ↦ let (same, still, one) = refuses e is_done in ground arith
        | inl (ok conn, is_done) ↦
            let (same, still, quiet) = opens conn is_done in
            let (same', quiet') = sends conn n s1 (same ∙ d) in
            let (r2, s2) = send conn s1 in
            elim (Outcome-cases r2) [
              | inr (text, is_panic) ↦ ground arith
              | inl (e, is_sent) ↦
                  let closed =
                    transfer_close-once env e s2 (ap (λ c. c.is_transfer_aborted) same' ∙ still) in
                  ground arith
            ]
      ]

  listed-once :
      (info param : Bytes) (code : ℕ) (allowed : Bool) (send : Files env → ℕ → M W (Option Error))
      (n : ℕ) (s : Session W)
      → 200 ≤ code
      → ((files : Files env) → Sends (send files))
      → s.client.driver ≡ some n
      → s.client.is_transfer_aborted ≡ false
      → let (r, s') =
          (get_file_list env param allowed >>= λ r.
          list_command env info code (list_error env r.2) (send r))
            s in
        finals s'.log ≡ finals s.log + given r
  listed-once info param code allowed send n s final sends d a =
      let (same, still, quiet, ends) = get_file_list-Quiet param allowed n s d in
      let (r, s1) = get_file_list env param allowed s in
      elim (Outcome-cases r) [
        | inr (text, is_panic) ↦ absurd (ends text is_panic)
        | inl (files, is_done) ↦
            let one =
              list_command-once info code (list_error env files.2) (send files) n s1 final
                (sends files) (same ∙ d) (still ∙ a) in
            ground arith
      ]

  pub handle_list-AnswersReady : (param : Bytes) → AnswersReady (handle_list env param)
  unfolding handle_list
  handle_list-AnswersReady param = record {
    at = λ s n d a.
        listed-once (codes "LIST " ++ param) param 450 true
          (λ r conn. dir_transfer_list env conn r.0) n s (omega arith)
          (λ r. dir_transfer_list-Sends r.0) d a;
  }

  pub handle_nlst-AnswersReady : (param : Bytes) → AnswersReady (handle_nlst env param)
  unfolding handle_nlst
  handle_nlst-AnswersReady param = record {
    at = λ s n d a.
        listed-once (codes "NLST " ++ param) param 450 true
          (λ r conn. dir_transfer_nlst env conn r.0 r.1) n s (omega arith)
          (λ r. dir_transfer_nlst-Sends r.0 r.1) d a;
  }

  handle_mlsd_at-once :
      (disabled : Bool) (param : Bytes) (n : ℕ) (s : Session W)
      → s.client.driver ≡ some n
      → s.client.is_transfer_aborted ≡ false
      → finals (handle_mlsd_at env disabled param s).1.log
        ≡ finals s.log + given (handle_mlsd_at env disabled param s).0
  handle_mlsd_at-once true param n s d a = ground arith
  handle_mlsd_at-once false param n s d a =
      listed-once (codes "MLSD " ++ param) param 550 false
        (λ r conn. dir_transfer_mlsd env conn r.0) n s (omega arith)
        (λ r. dir_transfer_mlsd-Sends r.0) d a

  pub handle_mlsd-AnswersReady : (param : Bytes) → AnswersReady (handle_mlsd env param)
  unfolding handle_mlsd
  handle_mlsd-AnswersReady param = record { at = λ s n d a. handle_mlsd_at-once _ param n s d a }
