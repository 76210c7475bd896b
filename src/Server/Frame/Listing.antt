-- ===== src/Server/Frame/Listing.antt =====
-- LIST, NLST and MLSD, whose drivers are given the ClientContext, and STAT.
use ftpserverlib.Prelude.{
  ℕ, Bool, true, false, not, ◌&&◌, List, [], ◌∷◌, ◌++◌, Option, none, some, arith, inl, inr,
  Option-cases,
}
use ftpserverlib.Text.{Bytes, codes}
use ftpserverlib.Errors.{Error}
use ftpserverlib.Paths.{abs_path, get_relative_path}
use ftpserverlib.Session.{Env, M, FileInfo, Outcome-cases, Result, ok, err, ◌>>=◌}
use ftpserverlib.Session.Leaves.{Same, Leaves, bind-Leaves, get_driver-Leaves}
use ftpserverlib.Session.Tame.{IsTame, Framed, Framed-IsFrame, Same-Framed, callback-Framed}
use ftpserverlib.Transfer.{transfer_open}
use ftpserverlib.Dirs.{
  Files, list_read_dir, list_found, list_stat, list_with, list_at, list_param, get_file_list,
  write_all, dir_transfer_list, dir_transfer_nlst, dir_transfer_mlsd, list_error, list_command,
  handle_list, handle_nlst, handle_mlsd, handle_mlsd_at, list_lines, mlsd_lines, nlst_lines,
  check_list_args, check_list_args_loop,
}
use ftpserverlib.Server.Frame.Transfers.{transfer_open-Same, transfer_close-Same}

module _ {W : Type 0} (env : Env W) where
  write_all-Same : (conn : ℕ) (ls : List Bytes) → Leaves Same (write_all env conn ls)
  unfolding write_all
  write_all-Same conn [] = record { at = λ s. ground arith }
  write_all-Same conn (l ∷ ls) = record {
    at = λ s.
        let ((written, e), w) = env.net.write conn l s.world in
        let later = (write_all-Same conn ls).at (record s { world = w }) in ground arith;
  }

  list_param-Same : (disabled : Bool) (param : Bytes) → Leaves Same (list_param env disabled param)
  unfolding check_list_args check_list_args_loop
  list_param-Same true param = record { at = λ s. ground arith }
  list_param-Same false param = record { at = λ s. ground arith }

  list_command-Same :
      (info : Bytes) (code : ℕ) (e : Option Error) (send : ℕ → M W (Option Error))
      → ((conn : ℕ) → Leaves Same (send conn))
      → Leaves Same (list_command env info code e send)
  list_command-Same info code (some e) send sent = record { at = λ s. ground arith }
  list_command-Same info code none send sent = record {
    at = λ s.
        let opened = (transfer_open-Same env info).at s in
        let (r, s1) = transfer_open env info s in
        elim (Outcome-cases r) [
          | inr (text, is_panic) ↦ ground arith
          | inl (err e, is_done) ↦ ground arith
          | inl (ok conn, is_done) ↦
              let same = (sent conn).at s1 in
              let (r2, s2) = send conn s1 in
              elim (Outcome-cases r2) [
                | inr (text, is_panic) ↦ ground arith
                | inl (e, is_sent) ↦ let closed = (transfer_close-Same env e).at s2 in ground arith
              ]
        ];
  }

  dir_transfer_list-Same :
      (files : List FileInfo) (conn : ℕ) → Leaves Same (dir_transfer_list env conn files)
  unfolding dir_transfer_list
  dir_transfer_list-Same [] conn = record { at = λ s. ground arith }
  dir_transfer_list-Same (f ∷ files) conn = record {
    at = λ s.
        let written =
          (write_all-Same conn (list_lines env s.client.connected_at (f ∷ files))).at s in
        ground arith;
  }

  dir_transfer_mlsd-Same :
      (files : List FileInfo) (conn : ℕ) → Leaves Same (dir_transfer_mlsd env conn files)
  unfolding dir_transfer_mlsd
  dir_transfer_mlsd-Same [] conn = record { at = λ s. ground arith }
  dir_transfer_mlsd-Same (f ∷ files) conn = record {
    at = λ s. let written = (write_all-Same conn (mlsd_lines env (f ∷ files))).at s in ground arith;
  }

  dir_transfer_nlst-Same :
      (files : List FileInfo) (parent_dir : Bytes) (conn : ℕ)
      → Leaves Same (dir_transfer_nlst env conn files parent_dir)
  unfolding dir_transfer_nlst
  dir_transfer_nlst-Same [] parent_dir conn = record { at = λ s. ground arith }
  dir_transfer_nlst-Same (f ∷ files) parent_dir conn = record {
    at = λ s. elim (Option-cases (get_relative_path s.client.path parent_dir)) [
      | inl endless ↦ ground arith
      | inr (relative, is) ↦
          let written = (write_all-Same conn (nlst_lines env relative (f ∷ files))).at s in
          ground arith
    ];
  }

module _ {W : Type 0} (env : Env W) (P : Bytes → Type 0) (tame : IsTame P env) where
  list_read_dir-Framed :
      (own : Bool) (n : ℕ) (path : Bytes)
      → Leaves (Framed P) (list_read_dir env own (env.main.driver n) path)
  list_read_dir-Framed true n path = record {
    at = λ s.
        (callback-Framed P env ((env.main.driver n).read_dir path) (tame.read_dir_tame n path)).at
          s;
  }
  list_read_dir-Framed false n path = Same-Framed P _ (record { at = λ s. ground arith })

  list_found-Framed :
      (is_dir allowed : Bool) (n : ℕ) (path : Bytes) (info : FileInfo)
      → Leaves (Framed P) (list_found env is_dir allowed (env.main.driver n) path info)
  list_found-Framed true allowed n path info = list_read_dir-Framed _ n path
  list_found-Framed false true n path info = Same-Framed P _ (record { at = λ s. ground arith })
  list_found-Framed false false n path info = Same-Framed P _ (record { at = λ s. ground arith })

  list_stat-Framed :
      (allowed : Bool) (n : ℕ) (path : Bytes) (r : Result FileInfo)
      → Leaves (Framed P) (list_stat env allowed (env.main.driver n) path r)
  list_stat-Framed allowed n path (err e) = Same-Framed P _ (record { at = λ s. ground arith })
  list_stat-Framed allowed n path (ok info) = list_found-Framed info.is_dir allowed n path info

  list_at-Framed : (allowed : Bool) (param : Bytes) → Leaves (Framed P) (list_at env allowed param)
  list_at-Framed allowed param = record {
    at = λ s.
        let path = abs_path s.client.path param in
        (get_driver-Leaves (Framed P) (Framed-IsFrame P) env (list_with env allowed path) (λ n.
            record {
              at = λ s'.
                  (list_stat-Framed allowed n path ((env.main.driver n).stat path s'.world).0).at
                    (record s' { world = ((env.main.driver n).stat path s'.world).1 });
            })).at
          (record s { client = record (s.client) { list_path = path } });
  }

  get_file_list-Framed :
      (param : Bytes) (allowed : Bool) → Leaves (Framed P) (get_file_list env param allowed)
  unfolding get_file_list
  get_file_list-Framed param allowed =
      bind-Leaves (Framed P) (Framed-IsFrame P)
        (list_param env env.settings.disable_list_args param) (list_at env allowed)
        (Same-Framed P _ (list_param-Same env env.settings.disable_list_args param))
        (list_at-Framed allowed)

  listed-Framed :
      (info param : Bytes) (code : ℕ) (allowed : Bool) (send : Files env → ℕ → M W (Option Error))
      → ((files : Files env) (conn : ℕ) → Leaves Same (send files conn))
      → Leaves (Framed P) (
          get_file_list env param allowed >>= λ r.
          list_command env info code (list_error env r.2) (send r))
  listed-Framed info param code allowed send sent =
      bind-Leaves (Framed P) (Framed-IsFrame P) (get_file_list env param allowed)
        (λ r. list_command env info code (list_error env r.2) (send r))
        (get_file_list-Framed param allowed)
        (λ r.
          Same-Framed P _ (list_command-Same env info code (list_error env r.2) (send r) (sent r)))

  pub handle_list-Framed : (param : Bytes) → Leaves (Framed P) (handle_list env param)
  unfolding handle_list
  handle_list-Framed param =
      listed-Framed (codes "LIST " ++ param) param 450 true
        (λ r conn. dir_transfer_list env conn r.0) (λ r. dir_transfer_list-Same env r.0)

  pub handle_nlst-Framed : (param : Bytes) → Leaves (Framed P) (handle_nlst env param)
  unfolding handle_nlst
  handle_nlst-Framed param =
      listed-Framed (codes "NLST " ++ param) param 450 true
        (λ r conn. dir_transfer_nlst env conn r.0 r.1) (λ r. dir_transfer_nlst-Same env r.0 r.1)

  handle_mlsd_at-Framed :
      (disabled : Bool) (param : Bytes) → Leaves (Framed P) (handle_mlsd_at env disabled param)
  handle_mlsd_at-Framed true param = Same-Framed P _ (record { at = λ s. ground arith })
  handle_mlsd_at-Framed false param =
      listed-Framed (codes "MLSD " ++ param) param 550 false
        (λ r conn. dir_transfer_mlsd env conn r.0) (λ r. dir_transfer_mlsd-Same env r.0)

  pub handle_mlsd-Framed : (param : Bytes) → Leaves (Framed P) (handle_mlsd env param)
  unfolding handle_mlsd
  handle_mlsd-Framed param = record {
    at = λ s.
        (handle_mlsd_at-Framed (env.settings.disable_mlsd && not s.client.is_transfer_aborted)
            param).at
          s;
  }
