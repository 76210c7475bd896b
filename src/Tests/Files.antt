-- ===== src/Tests/Files.antt =====
-- Transfers and COMB, over a world that is what was written to a file.
use ftpserverlib.Prelude.{true, false, [], ◌∷◌, ◌++◌, none, some, ◌≡◌, refl, arith, length, take}
use ftpserverlib.Text.{Bytes, codes}
use ftpserverlib.Session.{
  Env, ClientDriver, Session, ok, passive, ascii, clear_or_encrypted, new_client_handler,
}
use ftpserverlib.Transfer.{transfer_close, close_transfer}
use ftpserverlib.Session.{close_handler}
use ftpserverlib.Files.{
  concat, through, read_chunks, copy_chunks, copy_through, do_file_transfer, transfer_on,
  get_file_handle,
}
use ftpserverlib.Ascii.{read, give, read_line, read_slice}
use ftpserverlib.Ascii.Convert.{convert}
use ftpserverlib.Reply.{drop_cr}
use ftpserverlib.Files.Delivery.{Appends}
use ftpserverlib.Files.Complete.{IsSink, transfer_on-delivers}
use ftpserverlib.Text.{replace_byte, join}
use ftpserverlib.Dirs.{format_mlsd}
use ftpserverlib.Session.{FileInfo, sha256, done, reply_codes}
use ftpserverlib.Files.{unquote_space_separated_params, compute_hash_for_file}
use ftpserverlib.Files.Resumed.{handle_retr-resumes}
use ftpserverlib.Transfer.{transfer_open, open_transfer}
use ftpserverlib.Files.{handle_retr, transfer_file, with_file, seeked, transfer_flags}
use ftpserverlib.Files.SetTime.{handle_mfmt-handle_mdtm}
use ftpserverlib.Files.{handle_mdtm, handle_mfmt}
use ftpserverlib.Prelude.{ℕ, suc}
use ftpserverlib.Text.Decimal.{decimal, digits}
use ftpserverlib.Files.Quoted.{csv_quote, unquote_space_separated_params-csv_quote}
use ftpserverlib.Files.Digest.{compute_hash_for_file-digest}
use ftpserverlib.Prelude.Int.{pos}
use ftpserverlib.Tests.World.{
  env_over, files_over, drivers_over, logged_in, user_session, file_info, epoch,
}

-- A driver that appends what is written.
abbrev store : ClientDriver Bytes
store = record (files_over (λ w. w)) {
  write_file = λ handle text w. ((length text, none), w ++ text);
}

abbrev store_env : Env Bytes
store_env = record (env_over (λ w. w) clear_or_encrypted (codes "10.0.0.6:40000")) {
  main = record (drivers_over (λ w. w)) { driver = λ n. store };
}

abbrev contents : Bytes → Bytes
contents w = w

take-length : (x : Bytes) → take (length x) x ≡ x
take-length [] = refl
take-length (c ∷ x) = rw (take-length x) refl

store-Appends : Appends contents (store.write_file 7)
store-Appends x w = (omega arith, rw (take-length x) refl, λ e. refl, λ e is. cc)

-- An upload in ASCII mode, whose line end comes in two reads.
abbrev upload_env : Env Bytes
upload_env = record store_env {
  net = record (store_env.net) {
    read_conn = λ conn w. ((codes "a\r" ∷ codes "\nb" ∷ [], none), w);
  };
}

abbrev upload : Session Bytes
upload = record {
  client = record logged_in {
    current_transfer_type = ascii;
    transfer = some (passive 3 3 2000 false (some 5) (codes "STOR f"));
    is_transfer_open = true;
  };
  world = codes "x";
  log = [];
}

upload-IsSink : IsSink upload_env contents true store 5 7
upload-IsSink = (store-Appends, λ w. refl, λ w. refl, λ l w. refl, λ c w. refl)

transfer_on-delivers_example :
    ((transfer_on upload_env true 7 (ok 5) upload).1.world ≡ codes "x" ++ codes "a\nb")
    × (true ≡ true → (upload_env.net.read_conn 5 upload.world).0.1 ≡ none)
unfolding transfer_on do_file_transfer copy_through through read_chunks copy_chunks concat
    transfer_close close_transfer close_handler read give read_line read_slice drop_cr
    new_client_handler convert
transfer_on-delivers_example =
    transfer_on-delivers upload_env contents true 5 7 0 upload refl upload-IsSink refl

-- A download from the byte 1 on of a file "a\nb", over a world that is what the client got.
abbrev download_env : Env Bytes
download_env = record store_env {
  net = record (store_env.net) { write = λ conn text w. ((length text, none), w ++ text) };
  main = record (store_env.main) {
    driver = λ n. record (files_over (λ w. w)) {
      read_file = λ handle w. ((codes "\n" ∷ codes "b" ∷ [], none), w);
    };
  };
}

abbrev resuming : Session Bytes
resuming = record {
  client = record logged_in {
    current_transfer_type = ascii;
    ctx_rest = pos 1;
    transfer = some (passive 3 3 2000 false (some 5) []);
  };
  world = codes "x";
  log = [];
}

-- TransferOpen's result
abbrev resumed : Session Bytes
resumed =
    (transfer_open download_env (codes "RETR f")
      (record resuming { client = record (resuming.client) { ctx_rest = pos 0 } })).1

download-Appends : Appends contents (download_env.net.write 5)
download-Appends x w = (omega arith, rw (take-length x) refl, λ e. refl, λ e is. cc)

download-IsSink : IsSink download_env contents false (download_env.main.driver 0) 5 7
download-IsSink = (download-Appends, λ w. refl, λ w. refl, λ l w. refl, λ c w. refl)

handle_retr-resumes_example :
    (handle_retr download_env (codes "f") resuming).1.world ≡ codes "x" ++ codes "\r\nb"
unfolding handle_retr transfer_file with_file seeked get_file_handle transfer_open open_transfer
    transfer_on do_file_transfer copy_through through read_chunks copy_chunks concat transfer_close
    close_transfer close_handler read give read_line read_slice drop_cr new_client_handler convert
    transfer_flags join
handle_retr-resumes_example =
    handle_retr-resumes download_env contents (codes "f") (codes "a\nb") 1 5 7 0
      (codes "\n" ∷ codes "b" ∷ []) resuming resumed (codes "x") (codes "x") (codes "x") refl refl
      (omega arith) refl refl refl refl refl download-IsSink refl

abbrev combining : Session Bytes
combining = record { client = logged_in; world = codes "x"; log = [] }

-- A file that was changed on a leap day.
abbrev leap_day_info : FileInfo
leap_day_info = record file_info {
  mod_time = record epoch {
    utc = record {
      year = 2024;
      month = 2;
      day = 29;
      hour = 23;
      minute = 5;
      second = 59;
      nanosecond = 123;
    };
  };
}

-- A file system whose world counts its calls.
abbrev dated_env : Env ℕ
dated_env = record (env_over suc clear_or_encrypted (codes "10.0.0.6:40000")) {
  main = record (drivers_over suc) {
    driver = λ n. record (files_over suc) { stat = λ path w. (ok leap_day_info, suc w) };
  };
}

handle_mfmt-handle_mdtm_example :
    let s1 = (handle_mdtm dated_env (codes "f") user_session).1 in
    let (r, s2) = handle_mfmt dated_env (codes "20240229230559" ++ (b' ' ∷ codes "g")) s1 in
    (r ≡ done none)
    × (s2.world ≡ 2)
    × (s2.client ≡ user_session.client)
    × (reply_codes s2.log ≡ 213 ∷ reply_codes s1.log)
unfolding handle_mdtm format_mlsd decimal digits join
handle_mfmt-handle_mdtm_example =
    handle_mfmt-handle_mdtm dated_env (codes "f") (codes "g") (codes "20240229230559") 0
      leap_day_info user_session 1 refl refl refl (omega arith) refl

-- A name with a space, and one with a quotation mark.
unquote_space_separated_params-csv_quote_example :
    unquote_space_separated_params
      (join b' ' (csv_quote (codes "a b") ∷ csv_quote (codes "c\"d") ∷ []))
    ≡ some (codes "a b" ∷ codes "c\"d" ∷ [])
unfolding join replace_byte
unquote_space_separated_params-csv_quote_example =
    unquote_space_separated_params-csv_quote (codes "a b") (codes "c\"d" ∷ [])

-- The file "abc", which is read in two pieces, from its start to its second byte.
compute_hash_for_file-digest_example :
    (compute_hash_for_file store_env (codes "/f") sha256 (pos 0) (pos 2) combining).0
    ≡ done (ok (store_env.digest sha256 (codes "ab")))
unfolding concat
compute_hash_for_file-digest_example =
    compute_hash_for_file-digest store_env (codes "/f") (codes "abc") sha256 0 2 7 0
      (codes "ab" ∷ codes "c" ∷ []) combining (codes "x") (codes "x") (codes "x") refl refl
      (omega arith) refl refl refl refl
