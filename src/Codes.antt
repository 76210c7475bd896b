-- ===== src/Codes.antt =====
-- The reply codes of consts.go.
use ftpserverlib.Prelude.{ℕ}

abbrev pub status_file_status_ok : ℕ
status_file_status_ok = 150

abbrev pub status_ok : ℕ
status_ok = 200

abbrev pub status_not_implemented : ℕ
status_not_implemented = 202

abbrev pub status_system_status : ℕ
status_system_status = 211

abbrev pub status_directory_status : ℕ
status_directory_status = 212

abbrev pub status_file_status : ℕ
status_file_status = 213

abbrev pub status_help_message : ℕ
status_help_message = 214

abbrev pub status_system_type : ℕ
status_system_type = 215

abbrev pub status_service_ready : ℕ
status_service_ready = 220

abbrev pub status_closing_control_conn : ℕ
status_closing_control_conn = 221

abbrev pub status_closing_data_conn : ℕ
status_closing_data_conn = 226

abbrev pub status_entering_pasv : ℕ
status_entering_pasv = 227

abbrev pub status_entering_epsv : ℕ
status_entering_epsv = 229

abbrev pub status_user_logged_in : ℕ
status_user_logged_in = 230

abbrev pub status_auth_accepted : ℕ
status_auth_accepted = 234

abbrev pub status_file_ok : ℕ
status_file_ok = 250

abbrev pub status_path_created : ℕ
status_path_created = 257

abbrev pub status_user_ok : ℕ
status_user_ok = 331

abbrev pub status_file_action_pending : ℕ
status_file_action_pending = 350

abbrev pub status_service_not_available : ℕ
status_service_not_available = 421

abbrev pub status_cannot_open_data_connection : ℕ
status_cannot_open_data_connection = 425

abbrev pub status_transfer_aborted : ℕ
status_transfer_aborted = 426

abbrev pub status_file_action_not_taken : ℕ
status_file_action_not_taken = 450

abbrev pub status_syntax_error_not_recognised : ℕ
status_syntax_error_not_recognised = 500

abbrev pub status_syntax_error_parameters : ℕ
status_syntax_error_parameters = 501

abbrev pub status_command_not_implemented : ℕ
status_command_not_implemented = 502

abbrev pub status_bad_command_sequence : ℕ
status_bad_command_sequence = 503

abbrev pub status_not_implemented_param : ℕ
status_not_implemented_param = 504

abbrev pub status_not_logged_in : ℕ
status_not_logged_in = 530

abbrev pub status_action_not_taken : ℕ
status_action_not_taken = 550

abbrev pub status_action_aborted : ℕ
status_action_aborted = 552

abbrev pub status_action_not_taken_no_file : ℕ
status_action_not_taken_no_file = 553
