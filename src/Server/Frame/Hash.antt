-- ===== src/Server/Frame/Hash.antt =====
-- HASH and its kin.
use ftpserverlib.Prelude.{
  Bool, true, false, List, [], ◌∷◌, Option, none, some, arith, inl, inr, Option-cases,
}
use ftpserverlib.Prelude.Int.{ℤ}
use ftpserverlib.Text.{Bytes}
use ftpserverlib.Paths.{abs_path}
use ftpserverlib.Session.{ClientDriver, Outcome-cases, Result, ok, err, FileInfo, Env, HashAlgo}
use ftpserverlib.Session.Leaves.{Same, Leaves}
use ftpserverlib.Files.{
  run_hasher, hash_range, hash_stat, hash_params, whole_or_part, read_only,
  unquote_space_separated_params, compute_hash_for_file, handle_generic_hash, handle_hash,
}
use ftpserverlib.Server.Frame.Combine.{get_file_handle-Same}

module _ {W : Type 0} (env : Env W) where
  compute_hash-Same :
      (path : Bytes) (algo : HashAlgo) (start end : ℤ)
      → Leaves Same (compute_hash_for_file env path algo start end)
  unfolding compute_hash_for_file
  compute_hash-Same path algo start end = record {
    at = λ s. let opened = (get_file_handle-Same env path read_only start).at s in ground arith;
  }

  run_hasher-Same :
      (own : Bool) (d : ClientDriver W) (path : Bytes) (algo : HashAlgo) (start end : ℤ)
      → Leaves Same (run_hasher env own d path algo start end)
  run_hasher-Same true d path algo start end = record { at = λ s. ground arith }
  run_hasher-Same false d path algo start end = compute_hash-Same path algo start end

  hash_range-Same :
      (custom : Bool) (algo : HashAlgo) (file : Bytes) (r : Result (ℤ × ℤ))
      → Leaves Same (hash_range env custom algo file r)
  hash_range-Same custom algo file (err e) = record { at = λ s. ground arith }
  hash_range-Same custom algo file (ok (start, end)) = record {
    at = λ s. elim (Option-cases s.client.driver) [
      | inl no_driver ↦ ground arith
      | inr (n, is_driver) ↦
          let dr = env.main.driver n in
          let path = abs_path s.client.path file in
          let hashed = (run_hasher-Same dr.has_hasher dr path algo start end).at s in
          elim (Outcome-cases (run_hasher env dr.has_hasher dr path algo start end s).0) [
            | inr (text, is_panic) ↦ ground arith
            | inl (r, is_done) ↦ ground arith
          ]
    ];
  }

  hash_stat-Same :
      (custom : Bool) (algo : HashAlgo) (param file : Bytes) (args : List Bytes)
      (r : Result FileInfo)
      → Leaves Same (hash_stat env custom algo param file args r)
  hash_stat-Same custom algo param file args (err e) = record { at = λ s. ground arith }
  hash_stat-Same custom algo param file args (ok info) = record {
    at = λ s.
        let ranged =
          (hash_range-Same custom algo file (whole_or_part env custom args info.size)).at s in
        ground arith;
  }

  hash_params-Same :
      (custom : Bool) (algo : HashAlgo) (param : Bytes) (names : Option (List Bytes))
      → Leaves Same (hash_params env custom algo param names)
  hash_params-Same custom algo param none = record { at = λ s. ground arith }
  hash_params-Same custom algo param (some []) = record { at = λ s. ground arith }
  hash_params-Same custom algo param (some (file ∷ rest)) = record {
    at = λ s. elim (Option-cases s.client.driver) [
      | inl no_driver ↦ ground arith
      | inr (n, is_driver) ↦
          let (r, w) = (env.main.driver n).stat file s.world in
          let found =
            (hash_stat-Same custom algo param file (file ∷ rest) r).at (record s { world = w }) in
          ground arith
    ];
  }

  pub handle_generic_hash-Same :
      (param : Bytes) (algo : HashAlgo) (custom : Bool)
      → Leaves Same (handle_generic_hash env param algo custom)
  unfolding handle_generic_hash
  handle_generic_hash-Same param algo custom = record {
    at = λ s.
        let hashed =
          (hash_params-Same custom algo param (unquote_space_separated_params param)).at s in
        ground arith;
  }

  pub handle_hash-Same : (param : Bytes) → Leaves Same (handle_hash env param)
  unfolding handle_hash
  handle_hash-Same param = record {
    at = λ s. (handle_generic_hash-Same param s.client.selected_hash_algo false).at s;
  }
