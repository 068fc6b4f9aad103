-- ===== src/Http/Files.antt =====
-- `send_file` and `execute_cgi` of plugins/output_http/httpd.c, with the table of httpd.h. What
-- `open`, `popen` and the reads behind them give stands in arguments.
mod Sending
pub mod Extension
pub mod Folder
mod Tests
use robotica_movel.Prelude.{
  ℕ, zero, suc, ◌+◌, ◌-◌, Bool, List, [], ◌∷◌, ◌++◌, Option, none, some, ◌==◌, if◌then◌else◌, Bytes,
  codes, length, take, drop,
}
use robotica_movel.CString.{str_eq}
use robotica_movel.CString.Number.{decimal}
use robotica_movel.Http.Stream.{std_header}
use robotica_movel.Http.Response.{http_buffer, send_error}

-- `mimetypes`: the extension, its dot included, and the type.
abbrev pub mimetypes : List (Bytes × Bytes)
mimetypes =
    (codes ".html", codes "text/html")
    ∷ (codes ".htm", codes "text/html")
    ∷ (codes ".css", codes "text/css")
    ∷ (codes ".js", codes "text/javascript")
    ∷ (codes ".txt", codes "text/plain")
    ∷ (codes ".jpg", codes "image/jpeg")
    ∷ (codes ".jpeg", codes "image/jpeg")
    ∷ (codes ".png", codes "image/png")
    ∷ (codes ".gif", codes "image/gif")
    ∷ (codes ".ico", codes "image/x-icon")
    ∷ (codes ".swf", codes "application/x-shockwave-flash")
    ∷ (codes ".cab", codes "application/x-shockwave-flash")
    ∷ (codes ".jar", codes "application/java-archive")
    ∷ (codes ".json", codes "application/json")
    ∷ []

-- The parameter, or `index.html`.
abbrev pub asked_name : Option Bytes → Bytes
asked_name none = codes "index.html"
asked_name (some []) = codes "index.html"
asked_name (some (c ∷ s)) = c ∷ s

-- The loop over `strchr`, which keeps the place of the last dot; `i` is the place of the text.
unfoldable pub dot_from : ℕ → ℕ → Bytes → ℕ
dot_from last i [] = last
dot_from last i (c ∷ s) = dot_from (if c == b'.' then i else last) (i + 1) s

-- `lastDot`
unfoldable pub last_dot : Bytes → ℕ
unfolding dot_from
last_dot parameter = dot_from 0 0 parameter

-- The loop over `mimetypes`.
unfoldable pub mimetype : List (Bytes × Bytes) → Bytes → Option Bytes
mimetype [] extension = none
mimetype ((dot_extension, type) ∷ rest) extension =
    let later = mimetype rest extension in
    if str_eq dot_extension extension then some type else later

-- The path in `buffer`, behind the two calls of `strncat`.
unfoldable pub path : Bytes → Bytes → Bytes
path www_folder parameter =
    let folder = take (http_buffer - 1) www_folder in
    folder ++ take (http_buffer - length folder - 1) parameter

unfoldable pub file_header : Bytes → Bytes
file_header type =
    codes "HTTP/1.0 200 OK\r\nContent-type: "
    ++ (type ++ (codes "\r\n" ++ (std_header ++ codes "\r\n")))

-- The loop that writes `buffer` and reads the next bytes into it. `writes k` tells whether the `k`th
-- `write` succeeds; a `read` of no bytes, or the end of the list, is one that is not above 0.
unfoldable pub sent_reads : (ℕ → Bool) → ℕ → Bytes → List Bytes → Bytes
sent_reads writes k buffer [] = if writes k then buffer else []
sent_reads writes k buffer ([] ∷ reads) = if writes k then buffer else []
sent_reads writes k buffer ((c ∷ s) ∷ reads) =
    let rest = sent_reads writes (k + 1) (c ∷ s) reads in if writes k then buffer ++ rest else []

unfoldable pub send_opened : (ℕ → Bool) → Bytes → Option (List Bytes) → Bytes
unfolding sent_reads file_header
send_opened writes type none = send_error 404 (codes "Could not open file")
send_opened writes type (some reads) = sent_reads writes 0 (file_header type) reads

-- Behind the search for the type; `open_file` gives what the reads from a path give, if it opens.
unfoldable pub send_typed :
    (Bytes → Option (List Bytes)) → (ℕ → Bool) → Bytes → Option Bytes → Bytes
send_typed open_file writes file none = send_error 404 (codes "MIME-TYPE not known")
send_typed open_file writes file (some type) = send_opened writes type (open_file file)

-- `send_file`: the bytes that it writes.
unfoldable pub send_file : (Bytes → Option (List Bytes)) → (ℕ → Bool) → Bytes → Option Bytes → Bytes
send_file open_file writes www_folder parameter =
    let name = asked_name parameter in
    if last_dot name == 0
    then send_error 400 (codes "No file extension found")
    else send_typed open_file writes (path www_folder name)
        (mimetype mimetypes (drop (last_dot name) name))

-- `enviroment`, the format of the command.
abbrev pub environment : Bytes
environment =
    codes
      "SERVER_SOFTWARE=\"mjpg-streamer\" SERVER_PROTOCOL=\"HTTP/1.1\" SERVER_PORT=\"%d\" GATEWAY_INTERFACE=\"CGI/1.1\" REQUEST_METHOD=\"GET\" SCRIPT_NAME=\"%s\" QUERY_STRING=\"%s\" %s"

-- Its pieces, between the values that `sprintf` puts in.
abbrev pub before_port : Bytes
before_port = codes "SERVER_SOFTWARE=\"mjpg-streamer\" SERVER_PROTOCOL=\"HTTP/1.1\" SERVER_PORT=\""

abbrev pub before_name : Bytes
before_name = codes "\" GATEWAY_INTERFACE=\"CGI/1.1\" REQUEST_METHOD=\"GET\" SCRIPT_NAME=\""

abbrev pub before_query : Bytes
before_query = codes "\" QUERY_STRING=\""

abbrev pub behind_query : Bytes
behind_query = codes "\" "

-- What `sprintf` makes of it.
unfoldable pub cgi_command : ℕ → Bytes → Bytes → Bytes → Bytes
cgi_command port parameter query_string fn_buffer =
    before_port
    ++ (decimal port
        ++ (before_name
            ++ (parameter ++ (before_query ++ (query_string ++ (behind_query ++ fn_buffer))))))

-- `buffer_length`
unfoldable pub cgi_room : Bytes → Bytes → ℕ
cgi_room fn_buffer parameter = length fn_buffer + length environment + length parameter + 256

-- The loop over `fread`; the output ends with the first read of no bytes.
unfoldable pub passed_on : (ℕ → Bool) → ℕ → List Bytes → Bytes
passed_on writes k [] = []
passed_on writes k ([] ∷ reads) = []
passed_on writes k ((c ∷ s) ∷ reads) =
    let rest = passed_on writes (k + 1) reads in if writes k then (c ∷ s) ++ rest else []

unfoldable pub script_output : (ℕ → Bool) → Option (List Bytes) → Bytes
unfolding passed_on
script_output writes none = send_error 403 (codes "CGI script cannot be executed")
script_output writes (some reads) = passed_on writes 0 reads

-- Behind the `open` of the script.
unfoldable pub run_opened :
    (Bytes → Option (List Bytes)) → (ℕ → Bool) → Bytes → Option (List Bytes) → Bytes
run_opened run writes command none = send_error 404 (codes "Could not open file")
run_opened run writes command (some _) = script_output writes (run command)

-- `execute_cgi`: the bytes that it writes. `run` gives what the reads from a command give, if
-- `popen` starts it.
unfoldable pub execute_cgi :
    (Bytes → Option (List Bytes))
    → (Bytes → Option (List Bytes))
    → (ℕ → Bool)
    → ℕ
    → Bytes
    → Bytes
    → Bytes
    → Bytes
execute_cgi open_file run writes port www_folder parameter query_string =
    let fn_buffer = path www_folder parameter in
    run_opened run writes (cgi_command port parameter query_string fn_buffer) (open_file fn_buffer)
