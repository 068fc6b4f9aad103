-- ===== src/Http/Response.antt =====
-- `send_error` of plugins/output_http/httpd.c.

use robotica_movel.Prelude.{
  ℕ, ◌≤◌, ◌<◌, Bool, true, false, [], ◌++◌, arith, ◌==◌, if◌then◌else◌, Bytes, codes, length,
  length-append,
}
use robotica_movel.Http.Stream.{std_header}

-- One branch of `send_error`, less the message: the status line, a further header line, the body.
abbrev status : Bytes → Bytes → Bytes → Bytes
status line extra body =
    codes "HTTP/1.0 "
    ++ (line
        ++ (codes "\r\nContent-type: text/plain\r\n"
            ++ (std_header ++ (extra ++ (codes "\r\n" ++ (body ++ codes "\r\n"))))))

-- The text before the message.
unfoldable pub error_head : ℕ → Bytes
error_head which =
    if which == 401
    then status (codes "401 Unauthorized")
        (codes "WWW-Authenticate: Basic realm=\"MJPG-Streamer\"\r\n")
        (codes "401: Not Authenticated!")
    else if which == 404
    then status (codes "404 Not Found") [] (codes "404: Not Found!")
    else if which == 500
    then status (codes "500 Internal Server Error") [] (codes "500: Internal Server Error!")
    else if which == 400
    then status (codes "400 Bad Request") [] (codes "400: Not Found!")
    else if which == 403
    then status (codes "403 Forbidden") [] (codes "403: Forbidden!")
    else status (codes "501 Not Implemented") [] (codes "501: Not Implemented!")

-- The bytes that `send_error` writes, where they fit into `buffer`.
unfoldable pub send_error : ℕ → Bytes → Bytes
unfolding error_head
send_error which message = error_head which ++ message

-- `BUFFER_SIZE`
abbrev pub http_buffer : ℕ
http_buffer = 1024

length-if :
    (b : Bool) (x y : Bytes) (n : ℕ) → length x ≤ n → length y ≤ n → length (if b then x else y) ≤ n
length-if true x y n h k = h
length-if false x y n h k = k

error_head_short : (which : ℕ) → length (error_head which) ≤ 400
unfolding error_head
error_head_short which = length-if (which == 401) _ _ 400 (omega arith) (
    length-if (which == 404) _ _ 400 (omega arith) (
      length-if (which == 500) _ _ 400 (omega arith) (
        length-if (which == 400) _ _ 400 (omega arith)
          (length-if (which == 403) _ _ 400 (omega arith) (omega arith)))))

-- `send_error` writes inside `buffer`, its NUL included, for every code and every message of at most
-- 600 bytes.
pub send_error_fits :
    (which : ℕ) (message : Bytes)
    → length message ≤ 600
    → length (send_error which message) < http_buffer
unfolding send_error
send_error_fits which message h =
    omega (arith, length-append (error_head which) message, error_head_short which)
