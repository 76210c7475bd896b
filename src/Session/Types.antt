-- ===== src/Session/Types.antt =====
-- The enumerations and the settings of driver.go and client_handler.go.
use ftpserverlib.Prelude.{◌≡◌, refl, ◌⊎◌, inl, inr, ℕ, Bool, true, false, Option, none, some}
use ftpserverlib.Prelude.Int.{ℤ}
use ftpserverlib.Text.{Bytes}
use ftpserverlib.Errors.{Error}

pub data HashAlgo : Type 0 where
  crc32 md5 sha1 sha256 sha512 unknown_algo : HashAlgo

pub data TransferType : Type 0 where
  ascii binary : TransferType

-- convertMode of asciiconverter.go
pub data ConvertMode : Type 0 where
  to_crlf to_lf : ConvertMode

pub data DataChannel : Type 0 where
  passive_channel active_channel : DataChannel

-- An int8 with three named values.
pub data TlsRequirement : Type 0 where
  clear_or_encrypted mandatory_encryption implicit_encryption : TlsRequirement
  other_requirement : ℤ → TlsRequirement

-- An int8 with two named values.
pub data DataConnectionRequirement : Type 0 where
  ip_match_required ip_match_disabled : DataConnectionRequirement
  other_check : ℤ → DataConnectionRequirement

abbrev pub is_mandatory : TlsRequirement → Bool
is_mandatory mandatory_encryption = true
is_mandatory _ = false

abbrev pub is_implicit : TlsRequirement → Bool
is_implicit implicit_encryption = true
is_implicit _ = false

abbrev pub is_ascii : TransferType → Bool
is_ascii ascii = true
is_ascii binary = false

-- A value and an error, where the code uses one of them only.
pub data Result {ℓ} (A : Type ℓ) : Type ℓ where
  ok : A → Result A
  err : Error → Result A

pub Result-cases {ℓ} :
    {A : Type ℓ} (r : Result A) → ((a : A) × (r ≡ ok a)) ⊎ ((e : Error) × (r ≡ err e))
Result-cases (ok a) = inl (a, refl)
Result-cases (err e) = inr (e, refl)

-- The value, where an error leaves it nil and is not looked at.
abbrev pub or_nil {ℓ} : {A : Type ℓ} → Result A → Option A
or_nil (ok a) = some a
or_nil (err e) = none

-- Ports below 0, which an int could be, are left out.
pub record PortRange : Type 0 where
  pub start : ℕ
  pub end : ℕ

-- Settings. The optional listener and the timeouts matter to the server only (Server.antt).
pub record Settings : Type 0 where
  pub listen_addr : Bytes
  pub public_host : Bytes
  -- a listener of the driver's, by its number
  pub settings_listener : Option ℕ
  pub passive_transfer_port_range : Option PortRange
  pub active_transfer_port_non20 : Bool
  pub idle_timeout : ℕ
  pub connection_timeout : ℕ
  pub disable_mlsd : Bool
  pub disable_mlst : Bool
  pub disable_mfmt : Bool
  pub banner : Bytes
  pub tls_required : TlsRequirement
  pub disable_list_args : Bool
  pub disable_site : Bool
  pub disable_active_mode : Bool
  pub enable_hash : Bool
  pub disable_stat : Bool
  pub disable_syst : Bool
  pub enable_comb : Bool
  pub default_transfer_type : TransferType
  pub active_connections_check : DataConnectionRequirement
  pub pasv_connections_check : DataConnectionRequirement

-- The civil fields of a time in UTC.
pub record Civil : Type 0 where
  pub year : ℕ
  pub month : ℕ
  pub day : ℕ
  pub hour : ℕ
  pub minute : ℕ
  pub second : ℕ
  pub nanosecond : ℕ

-- A time.Time: its instant, since the epoch, its civil fields, and what the two layouts of LIST
-- print for it in its own location.
pub record Time : Type 0 where
  pub nanos : ℕ
  pub utc : Civil
  pub stat_time : Bytes
  pub stat_year : Bytes

-- os.FileInfo; `mode_text` is Mode().String().
pub record FileInfo : Type 0 where
  pub name : Bytes
  pub size : ℤ
  pub is_dir : Bool
  pub is_regular : Bool
  pub mode_text : Bytes
  pub mod_time : Time

-- The flags of os.OpenFile that the code combines; O_RDONLY is all of them unset.
pub record Flags : Type 0 where
  pub wronly : Bool
  pub create : Bool
  pub append : Bool
  pub trunc : Bool
