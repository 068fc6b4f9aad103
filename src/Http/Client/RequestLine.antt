-- ===== src/Http/Client/RequestLine.antt =====
-- The first part of `client_thread` of plugins/output_http/httpd.c: the request line.
pub mod Shape
use robotica_movel.Prelude.{
  ℕ, zero, suc, ◌+◌, ◌-◌, ◌*◌, ◌/◌, ◌%◌, ◌^◌, ◌≤◌, ◌<◌, min, max, Bool, true, false, not, ◌&&◌,
  ◌||◌, List, [], ◌∷◌, ◌++◌, map, Option, none, some, ◌≡◌, refl, sym, ap, ◌∙◌, ◌↔◌, ◌≢◌, ◌⊎◌, arith,
  ltb, leb, ◌==◌, ==_iff, Bool-cases, Option-cases, inl, inr, ltb→lt, leb→le, lt→ltb, if◌then◌else◌,
  Bytes, codes, length, get_elem?, take, drop, replicate, All, all, append-nil, append_assoc,
  length-append, take-append-drop, length-take, length-drop, length-replicate, drop-append,
  take-append, drop_all, take_all, All-append,
}
use robotica_movel.Prelude.Int.{ℤ, pos, negsuc, ◌-ℤ◌}
use robotica_movel.CString.{contains, strstr, strchr, span, c_string}
use robotica_movel.CString.Number.{strtol_int}
use robotica_movel.Http.Escape.{unescape}
use robotica_movel.Http.Types.{
  Build, Answer, unknown, snapshot, snapshot_wxp, stream, stream_wxp, command, file, cgi, take_file,
  input_json, output_json, program_json, clients_json, Request, init_request, Action, error, fine,
}

-- A request to be answered, with the value of `query_suffixed` and what was done already; or an
-- error that closes the connection at once.
pub data Parsed : Type 0 where
  parsed : Request → Bool → List Action → Parsed
  rejected : ℕ → Bytes → Parsed

abbrev pub command_chars : Bytes
command_chars = codes "abcdefghijklmnopqrstuvwxyzABCDEFGHIJKLMNOPQRSTUVWXYZ_-=&1234567890%./"

abbrev pub file_chars : Bytes
file_chars = codes "abcdefghijklmnopqrstuvwxyzABCDEFGHIJKLMNOPQRSTUVWXYZ._-1234567890"

abbrev pub query_chars : Bytes
query_chars = codes "abcdefghijklmnopqrstuvwxyzABCDEFGHIJKLMNOPQRSTUVWXYZ._-1234567890=&"

abbrev pub malformed : Bytes
malformed = codes "Malformed HTTP request"

-- `MIN(MAX(strspn(pb, accept), 0), 100)` bytes of `pb`
unfoldable pub accepted : Bytes → Bytes → Bytes
unfolding span
accepted pb accept = take 100 (span pb accept)

-- The branches guarded by `check_client_status`, whose result is `cheater`.
unfoldable pub managed : Build → Bool → Answer → Parsed
managed b cheater t =
    if b.managment && cheater
    then parsed init_request false (fine ∷ error 403 (codes "frame already sent") ∷ [])
    else parsed (record init_request { type = t }) true []

-- The parameter of `take` and `command`, once it is unescaped.
unfoldable pub unescaped : Answer → Bool → Option Bytes → Parsed
unescaped t suffixed none =
    rejected 500 (codes "could not properly unescape command parameter string")
unescaped t suffixed (some buf) =
    parsed (record init_request { type = t; parameter = some (c_string buf) }) suffixed []

unfoldable pub action_request : Answer → Bool → Bytes → Option Bytes → Parsed
action_request t suffixed prefix none = rejected 400 malformed
action_request t suffixed prefix (some found) =
    unescaped t suffixed (unescape (accepted (drop (length prefix) found) command_chars))

-- The text behind `?`, or a blank.
unfoldable pub query_of : Option Bytes → Bytes
query_of none = codes " "
query_of (some question) = span (drop 1 question) query_chars

-- `strstr(buffer, "GET /")` and what follows.
unfoldable pub file_request : Option Bytes → Parsed
file_request none = rejected 400 malformed
file_request (some found) =
    let pb = drop 5 found in
    let name = some (accepted pb file_chars) in
    if contains pb (codes ".cgi")
    then parsed
        (record init_request {
          type = cgi;
          parameter = name;
          query_string = some (query_of (strchr pb b'?'));
        })
        false []
    else parsed (record init_request { type = file; parameter = name }) false []

-- "determine what to deliver"
unfoldable pub classify : Build → Bool → Bytes → Parsed
classify b cheater buffer =
    if contains buffer (codes "GET /?action=snapshot")
    then managed b cheater snapshot
    else if b.wxp_compat && (contains buffer (codes "GET /cam") && contains buffer (codes ".jpg"))
    then managed b cheater snapshot_wxp
    else if contains buffer (codes "POST /stream")
    then managed b cheater stream
    else if contains buffer (codes "GET /?action=stream")
    then managed b cheater stream
    else if b.wxp_compat && (contains buffer (codes "GET /cam") && contains buffer (codes ".mjpg"))
    then managed b cheater stream_wxp
    else if contains buffer (codes "GET /?action=take")
    then action_request take_file true (codes "GET /?action=take")
        (strstr buffer (codes "GET /?action=take"))
    else if contains buffer (codes "GET /input") && contains buffer (codes ".json")
    then parsed (record init_request { type = input_json }) true []
    else if contains buffer (codes "GET /output") && contains buffer (codes ".json")
    then parsed (record init_request { type = output_json }) true []
    else if contains buffer (codes "GET /program.json")
    then parsed (record init_request { type = program_json }) false []
    else if b.managment && contains buffer (codes "GET /clients.json")
    then parsed (record init_request { type = clients_json }) false []
    else if contains buffer (codes "GET /?action=command")
    then action_request command false (codes "GET /?action=command")
        (strstr buffer (codes "GET /?action=command"))
    else file_request (strstr buffer (codes "GET /"))

unfoldable pub is_wxp : Answer → Bool
is_wxp snapshot_wxp = true
is_wxp stream_wxp = true
is_wxp _ = false

-- `strncpy(numStr, sch + 1, 1)`, then `atoi`; webcamXP counts the cameras from 1.
unfoldable pub suffix_number : Answer → Option Bytes → ℤ
suffix_number t none = pos 0
suffix_number t (some sch) =
    let n = strtol_int (take 1 (drop 1 sch)) in if is_wxp t then n -ℤ pos 1 else n

-- `input_number`, from the request line
unfoldable pub input_number : Answer → Bool → Bytes → ℤ
input_number t suffixed buffer = if suffixed then suffix_number t (strchr buffer b'_') else pos 0
