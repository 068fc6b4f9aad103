-- ===== src/Http/Snapshot.antt =====
-- `send_snapshot` and `send_stream_wxp` of plugins/output_http/httpd.c: the bytes that they write.
use robotica_movel.Prelude.{
  ℕ, ◌-◌, Bool, List, [], ◌∷◌, ◌++◌, ◌≡◌, refl, if◌then◌else◌, Bytes, codes, length, replicate,
}
use robotica_movel.CString.Number.{decimal, decimal_padded}
use robotica_movel.Http.Stream.{std_header, Frame}
use robotica_movel.Http.Response.{send_error}

-- How far a response gets: `malloc` or `realloc` fails, or a `write` does.
pub data Outcome : Type 0 where
  no_memory header_fails picture_fails sent : Outcome

unfoldable pub snapshot_header : Frame → Bytes
snapshot_header f =
    codes "HTTP/1.0 200 OK\r\nAccess-Control-Allow-Origin: *\r\n"
    ++ (std_header
        ++ (codes "Content-type: image/jpeg\r\nX-Timestamp: "
            ++ (decimal f.tv_sec
                ++ (codes "." ++ (decimal_padded 6 f.tv_usec ++ codes "\r\n\r\n")))))

unfoldable pub send_snapshot : Outcome → Frame → Bytes
unfolding snapshot_header
send_snapshot no_memory f = send_error 500 (codes "not enough memory")
send_snapshot header_fails f = []
send_snapshot picture_fails f = snapshot_header f
send_snapshot sent f = snapshot_header f ++ f.picture

-- The header of the stream; the two dates are what `strftime` writes.
unfoldable pub wxp_header : Bytes → Bytes → Bytes
wxp_header date expires =
    codes
      "HTTP/1.1 200 OK\r\nConnection: keep-alive\r\nContent-Type: multipart/x-mixed-replace; boundary=--myboundary\r\nContent-Length: 9999999\r\nCache-control: no-cache, must revalidate\r\nDate: "
    ++ (date
        ++ (codes "\r\nExpires: "
            ++ (expires ++ codes "\r\nPragma: no-cache\r\nServer: webcamXP\r\n\r\n")))

-- The 50 bytes before a picture: the text of `sprintf`, and what `memset` left behind it.
unfoldable pub wxp_part : ℕ → Bytes
wxp_part size =
    let text = codes "mjpeg " ++ (decimal_padded 7 size ++ codes "12345") in
    text ++ replicate (50 - length text) 0

-- The loop, over the rounds before `stop`.
unfoldable pub wxp_rounds : List (Outcome × Frame) → Bytes
unfolding wxp_part
wxp_rounds [] = []
wxp_rounds ((no_memory, f) ∷ rs) = send_error 500 (codes "not enough memory")
wxp_rounds ((header_fails, f) ∷ rs) = []
wxp_rounds ((picture_fails, f) ∷ rs) = wxp_part (length f.picture)
wxp_rounds ((sent, f) ∷ rs) = wxp_part (length f.picture) ++ (f.picture ++ wxp_rounds rs)

-- `send_stream_wxp`, whose first `write` may fail.
unfoldable pub send_stream_wxp : Bool → Bytes → Bytes → List (Outcome × Frame) → Bytes
unfolding wxp_header wxp_rounds
send_stream_wxp greeted date expires rs =
    if greeted then wxp_header date expires ++ wxp_rounds rs else []

-- The bytes before a picture of 1234 bytes.
part_of_1234 : wxp_part 1234 ≡ codes "mjpeg 000123412345" ++ replicate 32 0
unfolding wxp_part decimal_padded
part_of_1234 = refl
