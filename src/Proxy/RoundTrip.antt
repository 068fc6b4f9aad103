-- ===== src/Proxy/RoundTrip.antt =====
-- The stream that `send_stream` of plugins/output_http/httpd.c writes, read by `extract_data` of
-- plugins/input_http/mjpg-proxy.c.
use robotica_movel.Prelude.{
  ◌+◌, ◌-◌, ◌≤◌, Bool, true, false, List, [], ◌∷◌, ◌++◌, map, Option, some, ◌≡◌, refl, sym, ap, ◌∙◌,
  arith, Bytes, codes, length, All, append_assoc,
}
use robotica_movel.CString.{contains}
use robotica_movel.CString.Number.{decimal, decimal_padded}
use robotica_movel.Http.Stream.{
  std_header, Frame, preamble, part_header, part_end, stop, sent, stream_rounds, send_stream,
}
use robotica_movel.Proxy.{
  pattern_compare, pattern_matches, buffer_size, boundary_text, init_extractor, extract_data,
  received, is_crlfcrlf, push_byte,
}
use robotica_movel.Proxy.Window.{value}
use robotica_movel.Proxy.Quiet.{quiet, slides, blank}
use robotica_movel.Proxy.Header.{header_stays, header_ends}
use robotica_movel.Proxy.Picture.{picture_before_boundary}
use robotica_movel.Proxy.PartHeader.{
  first_piece, second_piece, last_piece, head, quiet-head, head_ends, blank-AreBytes,
}

-- A picture that the parser hands out whole.
pub record Fits (f : Frame) : Type 0 where
  pub no_boundary : contains f.picture boundary_text ≡ false
  pub room : length f.picture + (2 + length boundary_text) ≤ buffer_size - 1

abbrev pictures : Bool → Bytes → List (Option Bytes)
pictures char_signed s = map received (extract_data char_signed init_extractor s).1

-- A header, and a picture before the next boundary.
part_read :
    (char_signed : Bool) (s : Bytes) (picture rest : Bytes)
    → quiet blank s ≡ true
    → is_crlfcrlf (push_byte char_signed (value (slides blank s)) b'\n') ≡ true
    → contains picture boundary_text ≡ false
    → length picture + (2 + length boundary_text) ≤ buffer_size - 1
    → pictures char_signed (s ++ (b'\n' ∷ (picture ++ (b'\r' ∷ b'\n' ∷ (boundary_text ++ rest)))))
      ≡ some picture ∷ pictures char_signed rest
part_read char_signed s picture rest h e n r =
    let behind = picture ++ (b'\r' ∷ b'\n' ∷ (boundary_text ++ rest)) in
    let (q, stays) =
      header_stays char_signed blank init_extractor.contentlength s (b'\n' ∷ behind) blank-AreBytes
        h in
    let ends = header_ends char_signed (value (slides blank s)) q b'\n' behind e in
    ap (λ x. map received x.1) (stays ∙ ends)
    ∙ (picture_before_boundary char_signed _ q picture rest n r).1

-- The status line, less its last byte, which the parser takes for a header.
abbrev status_line : Bytes
status_line = codes "HTTP/1.0 200 OK\r"

-- What the parser takes for the first picture: the rest of the header.
abbrev pub rest_of_header : Bytes
rest_of_header =
    codes "Access-Control-Allow-Origin: *\r\n"
    ++ (std_header
        ++ codes "Content-Type: multipart/x-mixed-replace;boundary=boundarydonotcross\r\n")

status_quiet : quiet blank status_line ≡ true
unfolding quiet
status_quiet = refl

status_ends :
    (char_signed : Bool)
    → is_crlfcrlf (push_byte char_signed (value (slides blank status_line)) b'\n') ≡ true
unfolding is_crlfcrlf push_byte slides
status_ends char_signed = refl

header_no_boundary : contains rest_of_header boundary_text ≡ false
unfolding contains
header_no_boundary = refl

preamble_read :
    (char_signed : Bool) (rest : Bytes)
    → pictures char_signed (preamble ++ rest)
      ≡ some rest_of_header ∷ pictures char_signed (codes "\r\n" ++ rest)
unfolding preamble
preamble_read char_signed rest =
    part_read char_signed status_line rest_of_header (codes "\r\n" ++ rest) status_quiet
      (status_ends char_signed) header_no_boundary (omega arith)

regroup_part :
    (a b c d e p l pic z : Bytes)
    → (a ++ (b ++ (c ++ (d ++ (e ++ (p ++ l)))))) ++ (pic ++ z)
      ≡ a ++ (b ++ (c ++ (d ++ (e ++ (p ++ (l ++ (pic ++ z)))))))
regroup_part a b c d e p l pic z = simp append_assoc

abbrev behind_boundary : Frame → Bytes → Bytes
behind_boundary f rest = codes "\r\n" ++ (part_header f ++ (f.picture ++ (part_end ++ rest)))

-- The line end of one boundary, a part, and the next boundary.
frame_read :
    (char_signed : Bool) (f : Frame) (rest : Bytes)
    → Fits f
    → pictures char_signed (behind_boundary f rest)
      ≡ some f.picture ∷ pictures char_signed (codes "\r\n" ++ rest)
unfolding part_header part_end
frame_read char_signed f rest h =
    ap (λ s. pictures char_signed s)
      (regroup_part first_piece (decimal (length f.picture)) second_piece (decimal f.tv_sec)
          (codes ".") (decimal_padded 6 f.tv_usec) (codes "\r\n\r\n") f.picture
          (codes "\r\n--boundarydonotcross\r\n" ++ rest)
        ∙ sym (
            regroup_part first_piece (decimal (length f.picture)) second_piece (decimal f.tv_sec)
              (codes ".") (decimal_padded 6 f.tv_usec) last_piece (b'\n' ∷ f.picture)
              (codes "\r\n--boundarydonotcross\r\n" ++ rest)))
    ∙ part_read char_signed (head f) f.picture (codes "\r\n" ++ rest) (quiet-head f)
        (head_ends char_signed f) h.no_boundary h.room

nothing_behind : (char_signed : Bool) → pictures char_signed (codes "\r\n") ≡ []
unfolding extract_data push_byte is_crlfcrlf pattern_compare pattern_matches
nothing_behind char_signed = refl

frames_read :
    (char_signed : Bool) (error_500 : Bytes) (frames : List Frame)
    → All (λ f. Fits f) frames
    → pictures char_signed (codes "\r\n" ++ stream_rounds error_500 (map sent frames ++ stop ∷ []))
      ≡ map (λ f. some f.picture) frames
unfolding stream_rounds
frames_read char_signed error_500 [] h = nothing_behind char_signed
frames_read char_signed error_500 (f ∷ frames) h =
    frame_read char_signed f (stream_rounds error_500 (map sent frames ++ stop ∷ [])) h.0
    ∙ ap (λ l. some f.picture ∷ l) (frames_read char_signed error_500 frames h.1)

-- The whole way of the pictures from `send_stream` to `on_image_received` of another server. When
-- every write of `send_stream` succeeds and it sends any list of frames before it stops, and when
-- the boundary occurs in none of the pictures and each fits into the buffer of the parser together
-- with the boundary and its line end, the parser hands out first the rest of the HTTP header behind
-- the status line, which it takes for a picture, and then exactly the pictures, whole and in order.
pub extract_data-send_stream :
    (char_signed : Bool) (error_500 : Bytes) (frames : List Frame)
    → All (λ f. Fits f) frames
    → map received
        (extract_data char_signed init_extractor
          (send_stream true error_500 (map sent frames ++ stop ∷ []))).1
      ≡ some rest_of_header ∷ map (λ f. some f.picture) frames
unfolding send_stream
extract_data-send_stream char_signed error_500 frames h =
    preamble_read char_signed (stream_rounds error_500 (map sent frames ++ stop ∷ []))
    ∙ ap (λ l. some rest_of_header ∷ l) (frames_read char_signed error_500 frames h)
