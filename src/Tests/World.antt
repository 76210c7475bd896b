-- ===== src/Tests/World.antt =====
-- A small server for the tests: a file system with the directories / and /a and the file /f, a
-- driver that knows one user, and a network, over a world that every call changes by `tick`.
use ftpserverlib.Prelude.{
  ℕ, suc, true, false, [], ◌∷◌, Option, none, some, if◌then◌else◌, ◌||◌, ◌&&◌, length,
}
use ftpserverlib.Prelude.Int.{pos}
use ftpserverlib.Text.{Bytes, codes, equal, cut}
use ftpserverlib.Text.Decimal.{Number, number, parse_int}
use ftpserverlib.Errors.{foreign}
use ftpserverlib.Session.{
  Result, ok, err, Settings, Time, FileInfo, binary, ip_match_required, mandatory_encryption,
  clear_or_encrypted, ClientDriver, MainDriver, Network, Ip, TcpAddr, Env, Client, Session,
  new_client_handler, Transfer, passive, TlsRequirement,
}

abbrev pub epoch : Time
epoch = record {
  nanos = 0;
  utc = record {
    year = 1970;
    month = 1;
    day = 1;
    hour = 0;
    minute = 0;
    second = 0;
    nanosecond = 0;
  };
  stat_time = codes " Jan  1 00:00 ";
  stat_year = codes " Jan  1  1970 ";
}

abbrev pub directory_info : FileInfo
directory_info = record {
  name = codes "a";
  size = pos 0;
  is_dir = true;
  is_regular = false;
  mode_text = codes "drwxr-xr-x";
  mod_time = epoch;
}

abbrev pub file_info : FileInfo
file_info = record {
  name = codes "f";
  size = pos 3;
  is_dir = false;
  is_regular = true;
  mode_text = codes "-rw-r--r--";
  mod_time = epoch;
}

abbrev pub stat_of : Bytes → Result FileInfo
stat_of path =
    if equal path (codes "/") || equal path (codes "/a")
    then ok directory_info
    else if equal path (codes "/f")
    then ok file_info
    else err (foreign (codes "no such file"))

abbrev pub files_over : {W : Type 0} → (W → W) → ClientDriver W
files_over tick = record {
  stat = λ path w. (stat_of path, tick w);
  mkdir = λ path mode w. (none, tick w);
  mkdir_all = λ path mode w. (none, tick w);
  remove = λ path w. (none, tick w);
  remove_all = λ path w. (none, tick w);
  rename = λ src dst w. (none, tick w);
  chmod = λ path mode w. (none, tick w);
  chown = λ path uid gid w. (none, tick w);
  chtimes = λ path atime mtime w. (none, tick w);
  open_file = λ path flags w. (ok 7, tick w);
  seek = λ handle offset w. (none, tick w);
  read_file = λ handle w. ((codes "ab" ∷ codes "c" ∷ [], none), tick w);
  write_file = λ handle text w. ((length text, none), tick w);
  close_file = λ handle w. (none, tick w);
  open_dir = λ path w. (ok 8, tick w);
  readdir = λ handle w. ((file_info ∷ [], none), tick w);
  close_dir = λ handle w. (none, tick w);
  has_transfer_error = λ handle. false;
  transfer_error = λ handle e w. (tt, w);
  has_allocate = false;
  allocate_space = λ size w. (none, w);
  has_symlink = false;
  symlink = λ old new w. (none, w);
  has_file_list = false;
  read_dir = λ path w. (([], none), [], w);
  has_file_transfer = false;
  get_handle = λ path flags offset w. (ok 7, w);
  has_remove_dir = false;
  remove_dir = λ path w. (none, w);
  has_hasher = false;
  compute_hash = λ path algo start end w. (ok [], w);
  has_available_space = false;
  get_available_space = λ path w. (ok (pos 0), w);
}

abbrev pub settings_with : TlsRequirement → Settings
settings_with requirement = record {
  listen_addr = codes "0.0.0.0:2121";
  public_host = [];
  settings_listener = none;
  passive_transfer_port_range = none;
  active_transfer_port_non20 = false;
  idle_timeout = 900;
  connection_timeout = 30;
  disable_mlsd = false;
  disable_mlst = false;
  disable_mfmt = false;
  banner = codes "banner";
  tls_required = requirement;
  disable_list_args = false;
  disable_site = false;
  disable_active_mode = false;
  enable_hash = true;
  disable_stat = false;
  disable_syst = false;
  enable_comb = true;
  default_transfer_type = binary;
  active_connections_check = ip_match_required;
  pasv_connections_check = ip_match_required;
}

abbrev pub drivers_over : {W : Type 0} → (W → W) → MainDriver W
drivers_over tick = record {
  driver = λ n. files_over tick;
  get_settings = λ w. ((some (settings_with clear_or_encrypted), none), w);
  client_connected = λ w. ((codes "welcome", none), [], w);
  client_disconnected = λ w. (tt, [], w);
  auth_user = λ user pass w. (
    (if equal user (codes "u") && equal pass (codes "p")
        then (some 0, none)
        else (none, some (foreign (codes "bad login")))),
    [],
    w,
  );
  get_tls_config = λ w. ((false, none), w);
  has_tls_verifier = false;
  verify_connection = λ user w. ((none, none), [], w);
  has_passive_wrapper = false;
  wrap_passive_listener = λ listener w. (ok listener, w);
  has_user_verifier = false;
  pre_auth_user = λ user w. (none, [], w);
  has_post_auth_message = false;
  post_auth_message = λ user e w. ([], [], w);
  has_quit_message = false;
  quit_message = λ w. ([], w);
  has_public_ip_resolver = false;
  public_ip_resolver = λ w. (ok [], [], w);
}

-- The peers of data connections: 6 is the client's host, 9 is another one.
abbrev pub client_ip : Ip
client_ip = 10 ∷ 0 ∷ 0 ∷ 6 ∷ []

abbrev pub other_ip : Ip
other_ip = 10 ∷ 0 ∷ 0 ∷ 9 ∷ []

abbrev addr_of : Number → Result TcpAddr
addr_of (number (pos port)) = ok (record { ip = client_ip; port = port })
addr_of _ = err (foreign (codes "bad port"))

abbrev resolved : Option (Bytes × Bytes) → Result TcpAddr
resolved (some (host, port)) = addr_of (parse_int 64 port)
resolved none = err (foreign (codes "missing port"))

abbrev pub port_of : Option TcpAddr → ℕ
port_of none = 0
port_of (some addr) = addr.port

abbrev pub network_over : {W : Type 0} → (W → W) → Bytes → Network W
network_over tick peer = record {
  remote_addr = some (codes "10.0.0.6:40000");
  local_addr = codes "10.0.0.1:21";
  parse_ip = λ text.
      if equal text (codes "10.0.0.6")
      then some client_ip
      else if equal text (codes "10.0.0.9")
      then some other_ip
      else none;
  ip_text = λ ip. codes "10.0.0.6";
  split_host_port = λ text.
      if equal text (codes "10.0.0.6:40000")
      then ok (codes "10.0.0.6", codes "40000")
      else ok (codes "10.0.0.9", codes "1");
  resolve_tcp_addr = λ text w. (resolved (cut b':' text), w);
  listen = λ addr w. (ok 1, tick w);
  listen_tcp = λ addr w. (ok (record { listener_id = 3; listener_port = port_of addr }), tick w);
  accept = λ listener w. (ok (record { conn_id = 5; conn_remote = some peer }), tick w);
  dial = λ local addr w. (ok (record { conn_id = 6; conn_remote = none }), tick w);
  close_listener = λ listener w. (none, tick w);
  close_conn = λ conn w. (none, tick w);
  read_conn = λ conn w. ((codes "ab" ∷ codes "c" ∷ [], none), tick w);
  write = λ conn text w. ((length text, none), tick w);
  intn = λ n w. (0, w);
}

abbrev pub env_over : {W : Type 0} → (W → W) → TlsRequirement → Bytes → Env W
env_over tick requirement peer = record {
  settings = settings_with requirement;
  main = drivers_over tick;
  net = network_over tick peer;
  windows = false;
  digest = λ algo text. text;
  time_error = λ text. foreign text;
  elapsed = λ since w. (codes "1s", w);
  range_order = λ mapping w. (mapping, w);
}

-- A world that counts the calls.
abbrev pub env : Env ℕ
env = env_over suc clear_or_encrypted (codes "10.0.0.6:40000")

abbrev pub tls_env : Env ℕ
tls_env = env_over suc mandatory_encryption (codes "10.0.0.6:40000")

-- A server whose passive listeners are reached from another host.
abbrev pub stolen_env : Env ℕ
stolen_env = env_over suc clear_or_encrypted (codes "10.0.0.9:1")

-- A connection that was just accepted, and the same after a login.
abbrev pub fresh : Client
fresh = new_client_handler 1 binary 0 false

abbrev pub fresh_session : Session ℕ
fresh_session = record { client = fresh; world = 0; log = [] }

abbrev pub logged_in : Client
logged_in = record fresh { driver = some 0; user = codes "u" }

abbrev pub user_session : Session ℕ
user_session = record { client = logged_in; world = 0; log = [] }

-- The same after PASV.
abbrev pub pending : Transfer
pending = passive 3 3 2000 false none []

abbrev pub pasv_session : Session ℕ
pasv_session = record user_session { client = record logged_in { transfer = some pending } }
