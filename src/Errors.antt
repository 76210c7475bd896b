-- ===== src/Errors.antt =====
-- errors.go: the wrappers of errors, and the reply code that an error is given. With them the
-- error values of the other files and of the packages that the server calls.
use ftpserverlib.Codes.{status_action_aborted, status_action_not_taken_no_file}
use mathlib.Core.Path.{subst}
use ftpserverlib.Prelude.{
  ==_iff, sym, ◌∙◌, ℕ, Bool, true, false, ◌++◌, ◌≡◌, refl, inl, inr, arith, ◌==◌, if◌then◌else◌,
  Bool-cases, ap,
}
use ftpserverlib.Text.{Bytes, codes}

-- The error variables that the code compares with or returns: ErrStorageExceeded,
-- ErrFileNameNotAllowed, io.EOF, os.ErrNotExist, those of io.Copy, and those of the other files.
pub data Sentinel : Type 0 where
  storage_exceeded file_name_not_allowed eof not_exist no_transfer_connection : Sentinel
  tls_required invalid_tls_requirement file_list unknown_hash : Sentinel
  no_available_listening_port remote_addr_format not_listening : Sentinel
  short_write invalid_write : Sentinel

abbrev pub sentinel_id : Sentinel → ℕ
sentinel_id storage_exceeded = 0
sentinel_id file_name_not_allowed = 1
sentinel_id eof = 2
sentinel_id not_exist = 3
sentinel_id no_transfer_connection = 4
sentinel_id tls_required = 5
sentinel_id invalid_tls_requirement = 6
sentinel_id file_list = 7
sentinel_id unknown_hash = 8
sentinel_id no_available_listening_port = 9
sentinel_id remote_addr_format = 10
sentinel_id not_listening = 11
sentinel_id short_write = 12
sentinel_id invalid_write = 13

-- `foreign` is an error of a driver or a package, known by its text, and `matching` one whose own Is
-- method says that it is the sentinel, as syscall.ENOENT is os.ErrNotExist; `wrapped` is fmt.Errorf with
-- a text, a colon and %w; `bare_driver_error` is a DriverError around nil.
pub data Error : Type 0 where
  sentinel : Sentinel → Error
  foreign : Bytes → Error
  matching : Sentinel → Bytes → Error
  ip_validation : Bytes → Error
  wrapped driver_error network_error file_access_error : Bytes → Error → Error
  bare_driver_error : Bytes → Error

abbrev sentinel_text : Sentinel → Bytes
sentinel_text storage_exceeded = codes "storage limit exceeded"
sentinel_text file_name_not_allowed = codes "filename not allowed"
sentinel_text eof = codes "EOF"
sentinel_text not_exist = codes "file does not exist"
sentinel_text no_transfer_connection = codes "unable to open transfer: no transfer connection"
sentinel_text tls_required = codes "unable to open transfer: TLS is required"
sentinel_text invalid_tls_requirement = codes "invalid TLS requirement"
sentinel_text file_list = codes "listing a file isn't allowed"
sentinel_text unknown_hash = codes "unknown hash algorithm"
sentinel_text no_available_listening_port = codes "could not find any port to listen to"
sentinel_text remote_addr_format = codes "remote address has a bad format"
sentinel_text not_listening = codes "we aren't listening"
sentinel_text short_write = codes "short write"
sentinel_text invalid_write = codes "invalid write result"

abbrev colon : Bytes
colon = codes ": "

-- The Error methods.
unfoldable pub error_string : Error → Bytes
error_string (sentinel s) = sentinel_text s
error_string (foreign t) = t
error_string (matching s t) = t
error_string (ip_validation t) = t
error_string (wrapped t e) = t ++ (colon ++ error_string e)
error_string (driver_error t e) = codes "driver error: " ++ (t ++ (colon ++ error_string e))
error_string (network_error t e) = codes "network error: " ++ (t ++ (colon ++ error_string e))
error_string (file_access_error t e) =
    codes "file access error: " ++ (t ++ (colon ++ error_string e))
error_string (bare_driver_error t) = codes "driver error: " ++ (t ++ (colon ++ codes "<nil>"))

-- errors.Is for an error variable: down the chain of Unwrap, with the Is method of a foreign error.
unfoldable pub is_error : Error → Sentinel → Bool
is_error (sentinel s) t = sentinel_id s == sentinel_id t
is_error (matching s _) t = sentinel_id s == sentinel_id t
is_error (wrapped _ e) t = is_error e t
is_error (driver_error _ e) t = is_error e t
is_error (network_error _ e) t = is_error e t
is_error (file_access_error _ e) t = is_error e t
is_error _ t = false

unfoldable pub get_error_code : Error → ℕ → ℕ
unfolding is_error
get_error_code e default =
    if is_error e storage_exceeded
    then status_action_aborted
    else if is_error e file_name_not_allowed
    then status_action_not_taken_no_file
    else default

-- `e` is `s`, or wraps it at some depth.
pub data Wraps (s : Sentinel) : Error → Type 0 where
  here : Wraps s (sentinel s)
  is_it : (t : Bytes) → Wraps s (matching s t)
  in_wrapped : {e : Error} (t : Bytes) → Wraps s e → Wraps s (wrapped t e)
  in_driver : {e : Error} (t : Bytes) → Wraps s e → Wraps s (driver_error t e)
  in_network : {e : Error} (t : Bytes) → Wraps s e → Wraps s (network_error t e)
  in_file_access : {e : Error} (t : Bytes) → Wraps s e → Wraps s (file_access_error t e)

pub Wraps-is_error : {s : Sentinel} {e : Error} → Wraps s e → is_error e s ≡ true
unfolding is_error
Wraps-is_error {s} here = ground arith
Wraps-is_error {s} (is_it t) = ground arith
Wraps-is_error (in_wrapped t w) = Wraps-is_error w
Wraps-is_error (in_driver t w) = Wraps-is_error w
Wraps-is_error (in_network t w) = Wraps-is_error w
Wraps-is_error (in_file_access t w) = Wraps-is_error w

sentinel_of_id : ℕ → Sentinel
sentinel_of_id n =
    if n == 0
    then storage_exceeded
    else if n == 1
    then file_name_not_allowed
    else if n == 2
    then eof
    else if n == 3
    then not_exist
    else if n == 4
    then no_transfer_connection
    else if n == 5
    then tls_required
    else if n == 6
    then invalid_tls_requirement
    else if n == 7
    then file_list
    else if n == 8
    then unknown_hash
    else if n == 9
    then no_available_listening_port
    else if n == 10
    then remote_addr_format
    else if n == 11
    then not_listening
    else if n == 12
    then short_write
    else invalid_write

of_id-id : (s : Sentinel) → sentinel_of_id (sentinel_id s) ≡ s
unfolding sentinel_of_id
of_id-id storage_exceeded = refl
of_id-id _ = refl

same_id : (s t : Sentinel) → (sentinel_id t == sentinel_id s) ≡ true → s ≡ t
same_id s t h =
    sym (of_id-id s)
    ∙ ap sentinel_of_id (sym ((==_iff (sentinel_id t) (sentinel_id s)).0 h))
    ∙ of_id-id t

is_error-Wraps : (e : Error) (s : Sentinel) → is_error e s ≡ true → Wraps s e
unfolding is_error
is_error-Wraps (sentinel t) s h = subst (λ x. Wraps s (sentinel x)) (same_id s t h) here
is_error-Wraps (matching t x) s h = subst (λ y. Wraps s (matching y x)) (same_id s t h) (is_it x)
is_error-Wraps (wrapped t e) s h = in_wrapped t (is_error-Wraps e s h)
is_error-Wraps (driver_error t e) s h = in_driver t (is_error-Wraps e s h)
is_error-Wraps (network_error t e) s h = in_network t (is_error-Wraps e s h)
is_error-Wraps (file_access_error t e) s h = in_file_access t (is_error-Wraps e s h)
is_error-Wraps (foreign t) s h = cc
is_error-Wraps (ip_validation t) s h = cc
is_error-Wraps (bare_driver_error t) s h = cc

not_Wraps : (e : Error) (s : Sentinel) → ¬ Wraps s e → is_error e s ≡ false
not_Wraps e s n = elim (Bool-cases (is_error e s)) [
  | inl y ↦ absurd (n (is_error-Wraps e s y))
  | inr f ↦ f
]

-- An error keeps the code of what it wraps, however deep: 552 for a storage limit, 553 for a
-- refused name that wraps no storage limit as well, and the caller's code for all others.
pub get_error_code-Wraps :
    (e : Error) (default : ℕ)
    → (Wraps storage_exceeded e → get_error_code e default ≡ 552)
      × (¬ Wraps storage_exceeded e
          → Wraps file_name_not_allowed e
          → get_error_code e default ≡ 553)
      × (¬ Wraps storage_exceeded e
          → ¬ Wraps file_name_not_allowed e
          → get_error_code e default ≡ default)
unfolding get_error_code
get_error_code-Wraps e default = (
  λ s. rw (Wraps-is_error s),
  λ n f. rw (not_Wraps e storage_exceeded n, Wraps-is_error f),
  λ n m. rw (not_Wraps e storage_exceeded n, not_Wraps e file_name_not_allowed m),
)
