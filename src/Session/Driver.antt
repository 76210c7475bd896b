-- ===== src/Session/Driver.antt =====
-- The interfaces of driver.go as records of functions over the world `W` outside the server: the
-- file system, the network and the state of the drivers.
use ftpserverlib.Prelude.{ℕ, Bool, List, Option}
use ftpserverlib.Prelude.Int.{ℤ}
use ftpserverlib.Text.{Bytes}
use ftpserverlib.Errors.{Error}
use ftpserverlib.Session.Types.{Result, FileInfo, Civil, Flags, HashAlgo, TlsRequirement, Settings}

-- What a driver may do to the connection through the ClientContext that it is given, while it is
-- called: Close is close_connection.
pub data ContextCall : Type 0 where
  set_path set_list_path : Bytes → ContextCall
  set_debug : Bool → ContextCall
  set_tls_requirement : TlsRequirement → ContextCall
  close_connection : ContextCall

abbrev pub Call : Type 0 → Type 0 → Type 0
Call W A = W → A × W

-- A call that is given the ClientContext.
abbrev pub Callback : Type 0 → Type 0 → Type 0
Callback W A = W → A × List ContextCall × W

-- afero.Fs, as far as the server calls it, with the files that it opens, which go by numbers, and
-- the extensions of ClientDriver. A flag says whether the driver implements an extension.
pub record ClientDriver (W : Type 0) : Type 0 where
  pub stat : Bytes → Call W (Result FileInfo)
  pub mkdir : Bytes → ℕ → Call W (Option Error)
  pub mkdir_all : Bytes → ℕ → Call W (Option Error)
  pub remove : Bytes → Call W (Option Error)
  pub remove_all : Bytes → Call W (Option Error)
  pub rename : Bytes → Bytes → Call W (Option Error)
  pub chmod : Bytes → ℕ → Call W (Option Error)
  pub chown : Bytes → ℤ → ℤ → Call W (Option Error)
  pub chtimes : Bytes → Civil → Civil → Call W (Option Error)
  pub open_file : Bytes → Flags → Call W (Result ℕ)
  pub seek : ℕ → ℤ → Call W (Option Error)
  -- what the Reads of a file give, one after the other, until an error ends them: io.EOF for none
  pub read_file : ℕ → Call W (List Bytes × Option Error)
  -- Write: the number of bytes written, and the error
  pub write_file : ℕ → Bytes → Call W (ℕ × Option Error)
  pub close_file : ℕ → Call W (Option Error)
  -- Open of a directory, its Readdir(-1), and its Close
  pub open_dir : Bytes → Call W (Result ℕ)
  pub readdir : ℕ → Call W (List FileInfo × Option Error)
  pub close_dir : ℕ → Call W (Option Error)
  -- FileTransferError of the files
  pub has_transfer_error : ℕ → Bool
  pub transfer_error : ℕ → Error → Call W (Unit {0})
  pub has_allocate : Bool
  pub allocate_space : ℤ → Call W (Option Error)
  pub has_symlink : Bool
  pub symlink : Bytes → Bytes → Call W (Option Error)
  pub has_file_list : Bool
  pub read_dir : Bytes → Callback W (List FileInfo × Option Error)
  pub has_file_transfer : Bool
  pub get_handle : Bytes → Flags → ℤ → Call W (Result ℕ)
  pub has_remove_dir : Bool
  pub remove_dir : Bytes → Call W (Option Error)
  pub has_hasher : Bool
  pub compute_hash : Bytes → HashAlgo → ℤ → ℤ → Call W (Result Bytes)
  pub has_available_space : Bool
  pub get_available_space : Bytes → Call W (Result ℤ)

-- MainDriver and its extensions. Drivers return: their own panics are not in the model. What a
-- driver does with a ClientContext after its call has returned is not, either.
-- The drivers of the clients go by numbers, which `driver` reads.
-- GetTLSConfig answers whether its configuration is not nil.
pub record MainDriver (W : Type 0) : Type 0 where
  pub driver : ℕ → ClientDriver W
  pub get_settings : Call W (Option Settings × Option Error)
  pub client_connected : Callback W (Bytes × Option Error)
  pub client_disconnected : Callback W (Unit {0})
  pub auth_user : Bytes → Bytes → Callback W (Option ℕ × Option Error)
  pub get_tls_config : Call W (Bool × Option Error)
  pub has_tls_verifier : Bool
  pub verify_connection : Bytes → Callback W (Option ℕ × Option Error)
  pub has_passive_wrapper : Bool
  pub wrap_passive_listener : ℕ → Call W (Result ℕ)
  pub has_user_verifier : Bool
  pub pre_auth_user : Bytes → Callback W (Option Error)
  pub has_post_auth_message : Bool
  pub post_auth_message : Bytes → Option Error → Callback W Bytes
  pub has_quit_message : Bool
  pub quit_message : Call W Bytes
  -- the PublicIPResolver of the settings
  pub has_public_ip_resolver : Bool
  pub public_ip_resolver : Callback W (Result Bytes)

-- The net and math/rand packages and the sockets behind them. Sockets go by numbers.
abbrev pub Ip : Type 0
Ip = Bytes

pub record TcpAddr : Type 0 where
  pub ip : Ip
  pub port : ℕ

pub record Listener : Type 0 where
  pub listener_id : ℕ
  pub listener_port : ℕ

pub record Conn : Type 0 where
  pub conn_id : ℕ
  pub conn_remote : Option Bytes

pub record Network (W : Type 0) : Type 0 where
  -- the addresses of the control connection, and whether it is a *tls.Conn from the start
  pub remote_addr : Option Bytes
  pub local_addr : Bytes
  pub parse_ip : Bytes → Option Ip
  pub ip_text : Ip → Bytes
  pub split_host_port : Bytes → Result (Bytes × Bytes)
  pub resolve_tcp_addr : Bytes → Call W (Result TcpAddr)
  -- net.Listen on an address
  pub listen : Bytes → Call W (Result ℕ)
  -- ListenTCP; a nil address leaves host and port open
  pub listen_tcp : Option TcpAddr → Call W (Result Listener)
  pub accept : ℕ → Call W (Result Conn)
  -- Dial of a net.Dialer with this local address; its Control sets options of the socket only
  pub dial : Option TcpAddr → TcpAddr → Call W (Result Conn)
  pub close_listener : ℕ → Call W (Option Error)
  pub close_conn : ℕ → Call W (Option Error)
  -- the Reads of a data connection, as those of a file, and Write
  pub read_conn : ℕ → Call W (List Bytes × Option Error)
  pub write : ℕ → Bytes → Call W (ℕ × Option Error)
  -- rand.Intn(n) for 0 < n
  pub intn : ℕ → Call W ℕ

-- What does not change while a client is connected.
pub record Env (W : Type 0) : Type 0 where
  pub settings : Settings
  pub main : MainDriver W
  pub net : Network W
  -- runtime.GOOS is windows
  pub windows : Bool
  -- the sum of the hash over so many bytes, in hexadecimal
  pub digest : HashAlgo → Bytes → Bytes
  -- the error of time.Parse for a text that it refuses
  pub time_error : Bytes → Error
  -- how long ago a time is, in whole seconds, as time.Duration prints it
  pub elapsed : ℕ → Call W Bytes
  -- the order in which a loop ranges over the map of getHashMapping
  pub range_order : List (Bytes × HashAlgo) → Call W (List (Bytes × HashAlgo))
