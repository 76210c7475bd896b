-- ===== src/Session/State.antt =====
-- clientHandler, without its locks, its logger and its buffers.
use ftpserverlib.Prelude.{ℕ, Bool, true, false, ◌||◌, List, [], ◌∷◌, Option, none, some}
use ftpserverlib.Prelude.Int.{ℤ, pos}
use ftpserverlib.Text.{Bytes, codes}
use ftpserverlib.Errors.{Error, network_error}
use ftpserverlib.Session.Types.{
  HashAlgo, sha256, TransferType, DataChannel, TlsRequirement, clear_or_encrypted, Settings,
  is_implicit, is_mandatory, mandatory_encryption,
}
use ftpserverlib.Session.Driver.{
  TcpAddr, ContextCall, set_path, set_list_path, set_debug, set_tls_requirement, close_connection,
  Env,
}

-- passiveTransferHandler and activeTransferHandler; sockets go by their numbers.
pub data Transfer : Type 0 where
  passive :
      (tcp_listener listener port : ℕ) (use_tls : Bool) (connection : Option ℕ) (info : Bytes)
      → Transfer
  active : (raddr : TcpAddr) (use_tls : Bool) (connection : Option ℕ) (info : Bytes) → Transfer

pub record Client : Type 0 where
  pub id : ℕ
  -- the number of the driver, if there is one
  pub driver : Option ℕ
  pub user : Bytes
  pub path : Bytes
  pub list_path : Bytes
  pub clnt : Bytes
  pub command : Bytes
  pub connected_at : ℕ
  pub ctx_rnfr : Bytes
  pub ctx_rest : ℤ
  pub debug : Bool
  pub transfer_tls : Bool
  pub control_tls : Bool
  pub selected_hash_algo : HashAlgo
  pub current_transfer_type : TransferType
  pub transfer : Option Transfer
  pub last_data_channel : Option DataChannel
  pub is_transfer_open : Bool
  pub is_transfer_aborted : Bool
  pub tls_requirement : TlsRequirement
  -- conn is a *tls.Conn
  pub conn_is_tls : Bool
  -- c.reader is not nil
  pub has_reader : Bool
  -- the server closed the control connection
  pub closed : Bool

-- newClientHandler
unfoldable pub new_client_handler : ℕ → TransferType → ℕ → Bool → Client
new_client_handler client_id transfer_type now is_tls = record {
  id = client_id;
  driver = none;
  user = [];
  path = b'/' ∷ [];
  list_path = [];
  clnt = [];
  command = [];
  connected_at = now;
  ctx_rnfr = [];
  ctx_rest = pos 0;
  debug = false;
  transfer_tls = false;
  control_tls = false;
  selected_hash_algo = sha256;
  current_transfer_type = transfer_type;
  transfer = none;
  last_data_channel = none;
  is_transfer_open = false;
  is_transfer_aborted = false;
  tls_requirement = clear_or_encrypted;
  conn_is_tls = is_tls;
  has_reader = true;
  closed = false;
}

abbrev pub has_tls_for_control : Settings → Client → Bool
has_tls_for_control settings c = is_implicit settings.tls_required || c.control_tls

abbrev pub has_tls_for_transfers : Settings → Client → Bool
has_tls_for_transfers settings c = is_implicit settings.tls_required || c.transfer_tls

abbrev pub is_tls_required : Settings → Client → Bool
is_tls_required settings c = is_mandatory settings.tls_required || is_mandatory c.tls_requirement

-- SetTLSRequirement; a refused value leaves the client as it is.
abbrev pub with_tls_requirement : TlsRequirement → Client → Client
with_tls_requirement clear_or_encrypted c = record c { tls_requirement = clear_or_encrypted }
with_tls_requirement mandatory_encryption c = record c { tls_requirement = mandatory_encryption }
with_tls_requirement _ c = c

module _ {W : Type 0} (env : Env W) where
  abbrev close_conn? : Option ℕ → W → Option Error × W
  close_conn? none w = (none, w)
  close_conn? (some conn) w = env.net.close_conn conn w

  abbrev active_close_error : Option Error → Option Error
  active_close_error none = none
  active_close_error (some e) = some (network_error (codes "could not close active connection") e)

  -- Close of the two handlers. The passive one logs its errors only.
  unfoldable pub close_handler : Transfer → W → Option Error × W
  close_handler (passive t l p tls conn info) w =
      let (logged, w') = env.net.close_listener t w in
      let (logged', w'') = close_conn? conn w' in (none, w'')
  close_handler (active raddr tls conn info) w =
      let (e, w') = close_conn? conn w in (active_close_error e, w')

  abbrev drop_transfer : Client → W → Client × W
  drop_transfer c w = elim c.transfer [
    | none ↦ (c, w)
    | some t ↦
        let (logged, w') = close_handler t w in
        (record c { is_transfer_open = false; transfer = none }, w')
  ]

  -- Close: the transfer counts as aborted, and nothing is written.
  unfoldable pub close_client : Client → W → Client × W
  unfolding close_handler
  close_client c w =
      let (c', w') = drop_transfer (record c { is_transfer_aborted = true }) w in
      (record c' { closed = true }, w')

  unfoldable pub apply_context : List ContextCall → Client → W → Client × W
  unfolding close_client
  apply_context [] c w = (c, w)
  apply_context (set_path p ∷ calls) c w = apply_context calls (record c { path = p }) w
  apply_context (set_list_path p ∷ calls) c w = apply_context calls (record c { list_path = p }) w
  apply_context (set_debug b ∷ calls) c w = apply_context calls (record c { debug = b }) w
  apply_context (set_tls_requirement r ∷ calls) c w =
      apply_context calls (with_tls_requirement r c) w
  apply_context (close_connection ∷ calls) c w =
      let (c', w') = close_client c w in apply_context calls c' w'
