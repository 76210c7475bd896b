-- ===== src/Files/Digest.antt =====
-- What computeHashForFile hashes.
use ftpserverlib.Prelude.{
  ℕ, ◌-◌, ◌≤◌, true, List, none, some, ◌≡◌, refl, ap, ◌∙◌, inl, inr, arith, if◌then◌else◌, leb,
  length, take, drop, ltb, Bool-cases,
}
use ftpserverlib.Prelude.Int.{pos}
use ftpserverlib.Text.{Bytes}
use ftpserverlib.Errors.{is_error}
use ftpserverlib.Session.{Env, Session, HashAlgo, ok, done}
use ftpserverlib.Files.Copy.{concat, copy_n}
use ftpserverlib.Files.Hash.{compute_hash_for_file, is_known, minus, hash_read}
use ftpserverlib.Files.Opening.{opening, get_file_handle-opens}

module _ {W : Type 0} (env : Env W) where
  hash_read-copy_n :
      (algo : HashAlgo) (start end : ℕ) (chunks : List Bytes)
      → start ≤ end
      → hash_read env algo (copy_n (minus (pos end) (pos start)) (chunks, none))
        ≡ ok (env.digest algo (take (end - start) (concat chunks)))
  unfolding copy_n is_error
  hash_read-copy_n algo start end chunks ordered =
      let below : leb start end ≡ true = ground arith in
      rw (below) (elim (Bool-cases (ltb (length (concat chunks)) (end - start))) [
        | inl short ↦ rw (short) refl
        | inr enough ↦ rw (enough) refl
      ])

  -- Where the file is opened, positioned and read without an error, so that it gives the rest of
  -- its bytes from the start of the range on, the hash is that of the bytes of the range, as far as
  -- the file has them: a range that goes beyond the end is no error.
  pub compute_hash_for_file-digest :
      (path text : Bytes) (algo : HashAlgo) (start end handle n : ℕ) (chunks : List Bytes)
      (s : Session W) (w w' w'' : W)
      → s.client.driver ≡ some n
      → is_known algo ≡ true
      → start ≤ end
      → opening (env.main.driver n) path (pos start) s.world ≡ (ok handle, w)
      → (if ltb 0 start then (env.main.driver n).seek handle (pos start) w else (none, w))
        ≡ (none, w')
      → (env.main.driver n).read_file handle w' ≡ ((chunks, none), w'')
      → concat chunks ≡ drop start text
      → (compute_hash_for_file env path algo (pos start) (pos end) s).0
        ≡ done (ok (env.digest algo (take (end - start) (drop start text))))
  unfolding compute_hash_for_file
  compute_hash_for_file-digest path text algo start end handle n chunks s w w' w'' d known ordered
        opens seeks reads holds =
      let is = get_file_handle-opens env path (pos start) handle n s w d opens in
      let hashed =
        hash_read-copy_n algo start end chunks ordered
        ∙ ap (λ x. ok (env.digest algo (take (end - start) x))) holds in
      rw (known)
        (elim (Bool-cases (ltb 0 start)) [ inl moves ↦ ground arith | inr stays ↦ ground arith ])
