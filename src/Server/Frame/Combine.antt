-- ===== src/Server/Frame/Combine.antt =====
-- getFileHandle and COMB.
use ftpserverlib.Prelude.{
  ℕ, true, false, List, [], ◌∷◌, Option, none, some, arith, inl, inr, map, Option-cases,
}
use ftpserverlib.Prelude.Int.{ℤ, pos}
use ftpserverlib.Text.{Bytes}
use ftpserverlib.Paths.{abs_path}
use ftpserverlib.Session.{Outcome-cases, Result, ok, err, FileInfo, Env, Flags}
use ftpserverlib.Session.Leaves.{Same, Leaves}
use ftpserverlib.Files.{
  read_only, copy_through, target_known, combine_flags, combine_params,
  unquote_space_separated_params, get_file_handle, combine_parts, combine_files, handle_comb,
}

module _ {W : Type 0} (env : Env W) where
  pub get_file_handle-Same :
      (name : Bytes) (flags : Flags) (offset : ℤ)
      → Leaves Same (get_file_handle env name flags offset)
  unfolding get_file_handle
  get_file_handle-Same name flags offset = record { at = λ s. ground arith }

  combine_parts-Same :
      (target : Bytes) (file : ℕ) (parts : List Bytes)
      → Leaves Same (combine_parts env target file parts)
  unfolding combine_parts
  combine_parts-Same target file [] = record { at = λ s. ground arith }
  combine_parts-Same target file (p ∷ ps) = record {
    at = λ s.
        let opened = (get_file_handle-Same p read_only (pos 0)).at s in
        let (r, s1) = get_file_handle env p read_only (pos 0) s in
        elim (Outcome-cases r) [
          | inr (text, is_panic) ↦ ground arith
          | inl (err e, is_done) ↦ ground arith
          | inl (ok src, is_done) ↦ elim (Option-cases s1.client.driver) [
            | inl no_driver ↦ ground arith
            | inr (n, is_driver) ↦
                let dr = env.main.driver n in
                let w1 = (copy_through none (dr.read_file src) (dr.write_file file) s1.world).1 in
                let w3 = (dr.remove p (dr.close_file src w1).1).1 in
                let later = (combine_parts-Same target file ps).at (record s1 { world = w3 }) in
                ground arith
          ]
        ];
  }

  combine_files-Same :
      (target : Bytes) (flags : Flags) (sources : List Bytes)
      → Leaves Same (combine_files env target flags sources)
  unfolding combine_files
  combine_files-Same target flags sources = record {
    at = λ s.
        let opened = (get_file_handle-Same target flags (pos 0)).at s in
        let (r, s1) = get_file_handle env target flags (pos 0) s in
        elim (Outcome-cases r) [
          | inr (text, is_panic) ↦ ground arith
          | inl (err e, is_done) ↦ ground arith
          | inl (ok file, is_done) ↦
              let later = (combine_parts-Same target file sources).at s1 in ground arith
        ];
  }

  target_known-Same :
      (target : Bytes) (sources : List Bytes) (r : Result FileInfo)
      → Leaves Same (target_known env target sources r)
  target_known-Same target sources (ok info) = record {
    at = λ s.
        let combined = (combine_files-Same target (combine_flags false) sources).at s in
        ground arith;
  }
  target_known-Same target sources (err e) = record {
    at = λ s.
        let combined = (combine_files-Same target (combine_flags true) sources).at s in
        ground arith;
  }

  combine_params-Same :
      (param : Bytes) (names : Option (List Bytes)) → Leaves Same (combine_params env param names)
  combine_params-Same param none = record { at = λ s. ground arith }
  combine_params-Same param (some []) = record { at = λ s. ground arith }
  combine_params-Same param (some (target ∷ [])) = record { at = λ s. ground arith }
  combine_params-Same param (some (target ∷ source ∷ sources)) = record {
    at = λ s. elim (Option-cases s.client.driver) [
      | inl no_driver ↦ ground arith
      | inr (n, is_driver) ↦
          let path = abs_path s.client.path target in
          let (r, w) = (env.main.driver n).stat path s.world in
          let known =
            (target_known-Same path (map (abs_path s.client.path) (source ∷ sources)) r).at
              (record s { world = w }) in
          ground arith
    ];
  }

  pub handle_comb-Same : (param : Bytes) → Leaves Same (handle_comb env param)
  unfolding handle_comb
  handle_comb-Same param = record {
    at = λ s.
        let combined = (combine_params-Same param (unquote_space_separated_params param)).at s in
        ground arith;
  }
