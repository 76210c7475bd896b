-- ===== src/Server/Frame/Status.antt =====
-- STAT.
use ftpserverlib.Prelude.{
  ℕ, Bool, true, false, List, [], ◌∷◌, ◌++◌, Option, none, some, arith, inl, inr,
}
use ftpserverlib.Text.{Bytes, codes, equal}
use ftpserverlib.Errors.{Error}
use ftpserverlib.Reply.{continued}
use ftpserverlib.Paths.{abs_path}
use ftpserverlib.Session.{
  line, ClientDriver, Outcome-cases, Env, FileInfo, Result, ok, err, callback,
}
use ftpserverlib.Session.Leaves.{Same, Leaves, bind-Leaves, get_driver-Leaves}
use ftpserverlib.Session.Tame.{IsTame, Framed, Framed-IsFrame, Same-Framed, callback-Framed}
use ftpserverlib.Files.{
  stat_lines, stat_listed, stat_opened, stat_dir, stat_kind, stat_found, stat_at, handle_stat_file,
}
use ftpserverlib.Misc.{handle_stat, stat_of}
use ftpserverlib.Server.Frame.Simple.{handle_stat_server-Same}

module _ {W : Type 0} (env : Env W) where
  stat_lines-Same :
      (connected_at : ℕ) (files : List FileInfo) → Leaves Same (stat_lines env connected_at files)
  unfolding stat_lines
  stat_lines-Same connected_at [] = record { at = λ s. ground arith }
  stat_lines-Same connected_at (f ∷ files) = record {
    at = λ s. (stat_lines-Same connected_at files).at _;
  }

  stat_listed-Same :
      (param : Bytes) (r : List FileInfo × Option Error) → Leaves Same (stat_listed env param r)
  stat_listed-Same param (files, some e) = record { at = λ s. ground arith }
  stat_listed-Same param (files, none) = record {
    at = λ s.
        let s1 = record s { log = line (continued 212 (codes "STAT " ++ param)) ∷ s.log } in
        let written = (stat_lines-Same s.client.connected_at files).at s1 in
        elim (Outcome-cases (stat_lines env s.client.connected_at files s1).0) [
          | inr (text, is_panic) ↦ ground arith
          | inl (a, is_done) ↦ ground arith
        ];
  }

  stat_opened-Same :
      (param : Bytes) (d : ClientDriver W) (r : Result ℕ) → Leaves Same (stat_opened env param d r)
  stat_opened-Same param d (err e) = record { at = λ s. ground arith }
  stat_opened-Same param d (ok handle) = record {
    at = λ s.
        let (r, w) = d.readdir handle s.world in
        (stat_listed-Same param r).at (record s { world = (d.close_dir handle w).1 });
  }

module _ {W : Type 0} (env : Env W) (P : Bytes → Type 0) (tame : IsTame P env) where
  stat_dir-Framed :
      (own : Bool) (n : ℕ) (param path : Bytes)
      → Leaves (Framed P) (stat_dir env own param path (env.main.driver n))
  stat_dir-Framed true n param path =
      bind-Leaves (Framed P) (Framed-IsFrame P) (callback env ((env.main.driver n).read_dir path))
        (stat_listed env param)
        (callback-Framed P env ((env.main.driver n).read_dir path) (tame.read_dir_tame n path))
        (λ r. Same-Framed P _ (stat_listed-Same env param r))
  stat_dir-Framed false n param path = Same-Framed P _ (record {
    at = λ s.
        let (r, w) = (env.main.driver n).open_dir path s.world in
        (stat_opened-Same env param (env.main.driver n) r).at (record s { world = w });
  })

  stat_found-Framed :
      (is_dir : Bool) (n : ℕ) (param path : Bytes) (info : FileInfo)
      → Leaves (Framed P) (stat_kind env is_dir param path (env.main.driver n) info)
  stat_found-Framed true n param path info = stat_dir-Framed _ n param path
  stat_found-Framed false n param path info = Same-Framed P _ (record { at = λ s. ground arith })

  stat_answer-Framed :
      (n : ℕ) (param path : Bytes) (r : Result FileInfo)
      → Leaves (Framed P) (stat_found env param path (env.main.driver n) r)
  stat_answer-Framed n param path (err e) = Same-Framed P _ (record { at = λ s. ground arith })
  stat_answer-Framed n param path (ok info) = stat_found-Framed info.is_dir n param path info

  handle_stat_file-Framed : (param : Bytes) → Leaves (Framed P) (handle_stat_file env param)
  unfolding handle_stat_file
  handle_stat_file-Framed param = record {
    at = λ s.
        let path = abs_path s.client.path param in
        (get_driver-Leaves (Framed P) (Framed-IsFrame P) env (stat_at env param path) (λ n. record {
          at = λ s'.
              (stat_answer-Framed n param path ((env.main.driver n).stat path s'.world).0).at
                (record s' { world = ((env.main.driver n).stat path s'.world).1 });
        })).at
          s;
  }

  stat_of-Framed : (server : Bool) (param : Bytes) → Leaves (Framed P) (stat_of env server param)
  stat_of-Framed true param = Same-Framed P _ (handle_stat_server-Same env)
  stat_of-Framed false param = handle_stat_file-Framed param

  pub handle_stat-Framed : (param : Bytes) → Leaves (Framed P) (handle_stat env param)
  unfolding handle_stat
  handle_stat-Framed param = stat_of-Framed (equal param []) param
