-- ===== src/Files/Opening.antt =====
-- How getFileHandle opens a file.
use ftpserverlib.Prelude.{ℕ, true, false, some, ◌≡◌, arith, inl, inr, Bool-cases}
use ftpserverlib.Prelude.Int.{ℤ}
use ftpserverlib.Text.{Bytes, codes}
use ftpserverlib.Errors.{driver_error}
use ftpserverlib.Session.{
  Call, Flags, ClientDriver, Env, Session, Result, Result-cases, ok, err, done,
}
use ftpserverlib.Files.Transfers.{get_file_handle, read_only}

module _ {W : Type 0} where
  abbrev pub opening_for : Flags → ClientDriver W → Bytes → ℤ → Call W (Result ℕ)
  opening_for flags d path offset = elim d.has_file_transfer [
    | true ↦ d.get_handle path flags offset
    | false ↦ d.open_file path flags
  ]

  abbrev pub opening : ClientDriver W → Bytes → ℤ → Call W (Result ℕ)
  opening d path offset = opening_for read_only d path offset

module _ {W : Type 0} (env : Env W) where
  pub get_file_handle-opening :
      (flags : Flags) (path : Bytes) (offset : ℤ) (n : ℕ) (s : Session W)
      → s.client.driver ≡ some n
      → (r : Result ℕ) × (get_file_handle env path flags offset s ≡ (
        done r,
        record s { world = (opening_for flags (env.main.driver n) path offset s.world).1 },
      ))
        × ((h : ℕ)
            → r ≡ ok h
            → (opening_for flags (env.main.driver n) path offset s.world).0 ≡ ok h)
  unfolding get_file_handle
  get_file_handle-opening flags path offset n s d =
      let dr = env.main.driver n in
      elim (Bool-cases dr.has_file_transfer) [
        | inl own ↦ elim (Result-cases (dr.get_handle path flags offset s.world).0) [
          | inl (h, e) ↦ (ok h, ground arith, λ h' x. ground arith)
          | inr (e', e) ↦
              (err (driver_error (codes "calling GetHandle") e'), ground arith, λ h' x. cc)
        ]
        | inr fs ↦ elim (Result-cases (dr.open_file path flags s.world).0) [
          | inl (h, e) ↦ (ok h, ground arith, λ h' x. ground arith)
          | inr (e', e) ↦
              (err (driver_error (codes "calling OpenFile") e'), ground arith, λ h' x. cc)
        ]
      ]

  pub get_file_handle-opens :
      (path : Bytes) (offset : ℤ) (handle n : ℕ) (s : Session W) (w : W)
      → s.client.driver ≡ some n
      → opening (env.main.driver n) path offset s.world ≡ (ok handle, w)
      → get_file_handle env path read_only offset s ≡ (done (ok handle), record s { world = w })
  unfolding get_file_handle
  get_file_handle-opens path offset handle n s w d h =
      elim (Bool-cases (env.main.driver n).has_file_transfer) [
        | inl own ↦ ground arith
        | inr fs ↦ ground arith
      ]
