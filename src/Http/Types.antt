-- ===== src/Http/Types.antt =====
-- What the threads of plugins/output_http/httpd.c are configured with (`config` and the build
-- options of the CMake files), and what they see of `globals`.
use robotica_movel.Prelude.{ℕ, Bool, List, Option, none, Bytes}
use robotica_movel.Prelude.Int.{ℤ}

-- WXP_COMPAT and MANAGMENT.
pub record Build : Type 0 where
  pub wxp_compat : Bool
  pub managment : Bool

-- `config`, less the address that the server listens on.
pub record Config : Type 0 where
  pub credentials : Option Bytes
  pub www_folder : Option Bytes
  pub nocommands : Bool

-- The loaded plugins: how many inputs, the name of each output, and the return value of an output
-- plugin's `cmd(i, OUT_FILE_CMD_TAKE, IN_CMD_GENERIC, 0, filename)`.
pub record Plugins : Type 0 where
  pub incnt : ℕ
  pub out_names : List (Option Bytes)
  pub take_cmd : ℕ → Bytes → ℤ

-- `answer_t`
pub data Answer : Type 0 where
  unknown snapshot snapshot_wxp stream stream_wxp command file cgi take_file : Answer
  input_json output_json program_json clients_json : Answer

-- `request`
pub record Request : Type 0 where
  pub type : Answer
  pub parameter : Option Bytes
  pub client : Option Bytes
  pub credentials : Option Bytes
  pub query_string : Option Bytes

-- `init_request`, and the `query_string = NULL` that `client_thread` adds
abbrev pub init_request : Request
init_request = record {
  type = unknown;
  parameter = none;
  client = none;
  credentials = none;
  query_string = none;
}

-- What `client_thread` does for its client, in order.
pub data Action : Type 0 where
  -- `send_error(fd, code, message)`
  error : ℕ → Bytes → Action
  -- `lcfd.client->last_take_time.tv_sec += piggy_fine`
  fine : Action
  -- a call of the function of this name
  send_snapshot send_stream send_stream_wxp send_input_json send_output_json : ℤ → Action
  send_program_json send_clients_json : Action
  run_command : Option Bytes → Action
  send_file : Option Bytes → Action
  execute_cgi : Option Bytes → Option Bytes → Action
  -- `pglobal->out[i].cmd(i, OUT_FILE_CMD_TAKE, IN_CMD_GENERIC, 0, filename)`
  take_to_file : ℕ → Bytes → Action
