-- ===== src/Http/Stream.antt =====
-- `send_stream` of plugins/output_http/httpd.c: the bytes that it writes.
use robotica_movel.Prelude.{ℕ, Bool, List, [], ◌∷◌, ◌++◌, if◌then◌else◌, Bytes, codes, length}
use robotica_movel.CString.Number.{decimal, decimal_padded}

-- STD_HEADER
abbrev pub std_header : Bytes
std_header =
    codes
      "Connection: close\r\nServer: MJPG-Streamer/0.2\r\nCache-Control: no-store, no-cache, must-revalidate, pre-check=0, post-check=0, max-age=0\r\nPragma: no-cache\r\nExpires: Mon, 3 Jan 2000 12:34:56 GMT\r\n"

-- What an input plugin publishes: a picture, and the two fields of its `struct timeval`.
pub record Frame : Type 0 where
  pub picture : Bytes
  pub tv_sec : ℕ
  pub tv_usec : ℕ

-- The HTTP header, and the first boundary.
unfoldable pub preamble : Bytes
preamble =
    codes "HTTP/1.0 200 OK\r\nAccess-Control-Allow-Origin: *\r\n"
    ++ (std_header
        ++ codes
            "Content-Type: multipart/x-mixed-replace;boundary=boundarydonotcross\r\n\r\n--boundarydonotcross\r\n")

-- "print the individual mimetype and the length"
unfoldable pub part_header : Frame → Bytes
part_header f =
    codes "Content-Type: image/jpeg\r\nContent-Length: "
    ++ (decimal (length f.picture)
        ++ (codes "\r\nX-Timestamp: "
            ++ (decimal f.tv_sec
                ++ (codes "." ++ (decimal_padded 6 f.tv_usec ++ codes "\r\n\r\n")))))

unfoldable pub part_end : Bytes
part_end = codes "\r\n--boundarydonotcross\r\n"

-- Whether a `write` of the thread succeeds; the client may go away at any of the three writes of
-- a round, and `stop` ends the loop before a round.
pub data Round : Type 0 where
  stop : Round
  sent : Frame → Round
  header_fails : Frame → Round
  picture_fails : Frame → Round
  end_fails : Frame → Round
  -- `realloc` returned NULL
  no_memory : Round

-- What the client receives of the rounds, in the order of the writes.
unfoldable pub stream_rounds : Bytes → List Round → Bytes
unfolding part_header part_end
stream_rounds error_500 [] = []
stream_rounds error_500 (stop ∷ rs) = []
stream_rounds error_500 (no_memory ∷ rs) = error_500
stream_rounds error_500 (header_fails f ∷ rs) = []
stream_rounds error_500 (picture_fails f ∷ rs) = part_header f
stream_rounds error_500 (end_fails f ∷ rs) = part_header f ++ f.picture
stream_rounds error_500 (sent f ∷ rs) =
    part_header f ++ (f.picture ++ (part_end ++ stream_rounds error_500 rs))

-- `send_stream`, whose first `write` may fail; `error_500` is what `send_error` writes when there
-- is no memory for a frame.
unfoldable pub send_stream : Bool → Bytes → List Round → Bytes
unfolding preamble stream_rounds
send_stream greeted error_500 rs = if greeted then preamble ++ stream_rounds error_500 rs else []
