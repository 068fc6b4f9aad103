-- ===== src/Http/Client/Reply.antt =====
-- The last part of `client_thread` of plugins/output_http/httpd.c: access, range and the answer.
use robotica_movel.Prelude.{
  ℕ, zero, suc, ◌+◌, Bool, true, false, not, ◌&&◌, List, [], ◌∷◌, Option, none, some, ◌==◌,
  if◌then◌else◌, Bytes, codes, length, drop,
}
use robotica_movel.Prelude.Int.{ℤ, pos, negsuc, ltb_ℤ}
use robotica_movel.CString.{contains, strstr, str_eq}
use robotica_movel.Http.Types.{
  Config, Plugins, Answer, unknown, snapshot, snapshot_wxp, stream, stream_wxp, command, file, cgi,
  take_file, input_json, output_json, program_json, clients_json, Request, Action, error,
  send_snapshot, send_stream, send_stream_wxp, send_input_json, send_output_json, send_program_json,
  send_clients_json, run_command, send_file, execute_cgi, take_to_file,
}

-- `lcfd.pc->conf.credentials == NULL`, or the request's credentials compare equal to them.
unfoldable pub is_admitted : Option Bytes → Option Bytes → Bool
unfolding str_eq
is_admitted none given = true
is_admitted (some wanted) none = false
is_admitted (some wanted) (some given) = str_eq wanted given

-- The number of plugins that `input_number` counts for an answer.
unfoldable pub plugin_count : Plugins → Answer → ℕ
plugin_count p output_json = length p.out_names
plugin_count p _ = p.incnt

abbrev pub out_of_range : Answer → Action
out_of_range output_json = error 404 (codes "Invalid output plugin number")
out_of_range _ = error 404 (codes "Invalid input plugin number")

-- The text of the `filename=` argument, up to the next `&`.
pub up_to : Bytes → ℕ → Bytes
up_to [] c = []
up_to (x ∷ xs) c = if x == c then [] else x ∷ up_to xs c

unfoldable pub filename_of : Option Bytes → Option Bytes
unfolding strstr up_to
filename_of none = none
filename_of (some parameter) = elim (strstr parameter (codes "filename=")) [
  | none ↦ none
  | some found ↦ some (up_to (drop (length (codes "filename=")) found) b'&')
]

abbrev pub is_file_plugin : Option Bytes → Bool
is_file_plugin none = false
is_file_plugin (some name) = contains name (codes "FILE output plugin")

-- The index of the first output plugin that saves to files, counted from `i`.
unfoldable pub find_file_plugin : ℕ → List (Option Bytes) → Option ℕ
find_file_plugin i [] = none
find_file_plugin i (name ∷ names) =
    let rest = find_file_plugin (i + 1) names in if is_file_plugin name then some i else rest

-- `ret == 0`
abbrev pub is_zero : ℤ → Bool
is_zero (pos zero) = true
is_zero (pos (suc n)) = false
is_zero (negsuc n) = false

-- The file plugin `i` is found: with no file name `ret` keeps the value 0, and the snapshot is sent
-- as well.
unfoldable pub take_named : Plugins → ℤ → ℕ → Option Bytes → List Action
take_named p n i none =
    error 404 (codes "The &filename= must present for the take command in the URL")
    ∷ send_snapshot n
    ∷ []
take_named p n i (some name) =
    take_to_file i name
    ∷ (if is_zero (p.take_cmd i name)
        then send_snapshot n
        else error 404 (codes "Taking snapshot failed!"))
    ∷ []

unfoldable pub take_found : Plugins → Option Bytes → ℤ → Option ℕ → List Action
take_found p parameter n none =
    error 404 (codes "FILE output plugin not loaded, taking snapshot not possible") ∷ []
take_found p parameter n (some i) = take_named p n i (filename_of parameter)

-- `case A_TAKE`
unfoldable pub take_answer : Plugins → Option Bytes → ℤ → List Action
unfolding take_found take_named
take_answer p parameter n = take_found p parameter n (find_file_plugin 0 p.out_names)

-- `switch(req.type)`
unfoldable pub answer : Config → Plugins → Request → ℤ → Answer → List Action
answer cfg p req n snapshot_wxp = send_snapshot n ∷ []
answer cfg p req n snapshot = send_snapshot n ∷ []
answer cfg p req n stream = send_stream n ∷ []
answer cfg p req n stream_wxp = send_stream_wxp n ∷ []
answer cfg p req n command =
    (if cfg.nocommands
      then error 501 (codes "this server is configured to not accept commands")
      else run_command req.parameter)
    ∷ []
answer cfg p req n input_json = send_input_json n ∷ []
answer cfg p req n output_json = send_output_json n ∷ []
answer cfg p req n program_json = send_program_json ∷ []
answer cfg p req n clients_json = send_clients_json ∷ []
answer cfg p req n file = elim cfg.www_folder [
  | none ↦ error 501 (codes "no www-folder configured") ∷ []
  | some folder ↦ send_file req.parameter ∷ []
]
answer cfg p req n take_file = take_answer p req.parameter n
answer cfg p req n cgi = execute_cgi req.parameter req.query_string ∷ []
answer cfg p req n unknown = []

-- Behind the header: the credentials, the range of the plugin number, the answer.
unfoldable pub finish : Config → Plugins → Request → Bool → ℤ → List Action
finish cfg p req suffixed n =
    if not (is_admitted cfg.credentials req.credentials)
    then error 401 (codes "username and password do not match to configuration") ∷ []
    else if suffixed && not (ltb_ℤ n (pos (plugin_count p req.type)))
    then out_of_range req.type ∷ answer cfg p req n unknown
    else answer cfg p req n req.type
