-- ===== src/Proxy/Tests.antt =====
-- Runs of the stream parser, and its theorems at concrete inputs.
use robotica_movel.Prelude.{
  take, drop, length, none, concat, append-nil, take-append-drop, ◌<◌, ap, ◌∙◌, false, true, [],
  ◌∷◌, ◌++◌, map, some, ◌≡◌, refl, arith, Bytes, codes,
}
use robotica_movel.Prelude.Int.{pos, ◌-ℤ◌}
use robotica_movel.CString.{contains}
use robotica_movel.Proxy.{
  pattern_compare, pattern_matches, boundary_text, init_extractor, extract_data, received,
}
use robotica_movel.Proxy.{push_byte, is_crlfcrlf}
use robotica_movel.Http.Stream.{Frame, stop, sent, send_stream, preamble}
use robotica_movel.Http.Types
use robotica_movel.Http.Reader.{arrived}
use robotica_movel.Http.Client.{client_thread}
use robotica_movel.Http.Client.Text.{actions}
use robotica_movel.Proxy.Connection.{
  Connection, request, refused, no_socket, accepts, found, connect_and_stream,
}
use robotica_movel.Proxy.Delivery.{connect_and_stream_delivers}
use robotica_movel.Proxy.Request.{request_answered}
use robotica_movel.Proxy.RoundTrip.{Fits, rest_of_header, extract_data-send_stream}
use robotica_movel.Proxy.Bounds.{AllFit, extract_data-AllFit}
use robotica_movel.Proxy.Picture.{reading, picture_before_boundary}

abbrev jpeg : Bytes
jpeg = 255 ∷ 216 ∷ 45 ∷ 45 ∷ 98 ∷ 255 ∷ 217 ∷ []

-- Behind the status line the mask test already finds the end of a header.
status_line :
    is_crlfcrlf
      (push_byte true (push_byte true (push_byte true (push_byte true 0 b'O') b'K') b'\r') b'\n')
    ≡ true
unfolding is_crlfcrlf push_byte
status_line = refl

-- What follows the status line is taken for a picture.
preamble_image :
    map received
      (extract_data true init_extractor
        (codes "HTTP/1.0 200 OK\r\nServer: x\r\n\r\n--boundarydonotcross\r\n")).1
    ≡ some (codes "Server: x\r\n") ∷ []
unfolding extract_data received push_byte is_crlfcrlf pattern_compare pattern_matches ◌-ℤ◌
preamble_image = refl

extract_data-AllFit_example :
    AllFit (extract_data true init_extractor (codes "OK\r\nab\r\n--boundarydonotcross"))
extract_data-AllFit_example =
    extract_data-AllFit true init_extractor (codes "OK\r\nab\r\n--boundarydonotcross")
      (omega arith, refl)

picture_before_boundary_example :
    ((extract_data true
        (reading 0 init_extractor.contentlength [] 0)
        (jpeg ++ (b'\r' ∷ b'\n' ∷ (boundary_text ++ codes "\r\n")))).0
      ≡ (extract_data true init_extractor (codes "\r\n")).0)
    × (map received
          (extract_data true
            (reading 0 init_extractor.contentlength [] 0)
            (jpeg ++ (b'\r' ∷ b'\n' ∷ (boundary_text ++ codes "\r\n")))).1
        ≡ some jpeg ∷ map received (extract_data true init_extractor (codes "\r\n")).1)
picture_before_boundary_example =
    picture_before_boundary true 0 init_extractor.contentlength jpeg (codes "\r\n")
      (unfold contains in refl) (omega arith)

abbrev first_frame : Frame
first_frame = record { picture = jpeg; tv_sec = 1700000000; tv_usec = 42 }

abbrev second_frame : Frame
second_frame = record { picture = codes "\r\n--boundary?"; tv_sec = 1700000001; tv_usec = 7 }

first_frame-Fits : Fits first_frame
first_frame-Fits = record { no_boundary = unfold contains in refl; room = omega arith }

second_frame-Fits : Fits second_frame
second_frame-Fits = record { no_boundary = unfold contains in refl; room = omega arith }

extract_data-send_stream_example :
    map received
      (extract_data true init_extractor
        (send_stream true [] (map sent (first_frame ∷ second_frame ∷ []) ++ stop ∷ []))).1
    ≡ some rest_of_header ∷ some jpeg ∷ some second_frame.picture ∷ []
extract_data-send_stream_example =
    extract_data-send_stream true [] (first_frame ∷ second_frame ∷ [])
      (first_frame-Fits, (second_frame-Fits, tt))

abbrev whole_stream : Bytes
whole_stream = send_stream true [] (map sent (first_frame ∷ second_frame ∷ []) ++ stop ∷ [])

abbrev connection : Connection
connection = record { packets = take 7 whole_stream ∷ drop 7 whole_stream ∷ []; should_stop = true }

-- One round without an address, one with a server that is down.
connect_and_stream_delivers_example :
    map received
      (connect_and_stream true (
        map found ([] ∷ (refused ∷ no_socket ∷ []) ∷ [])
        ++ found ((refused ∷ []) ++ accepts connection ∷ []) ∷ [])).0
    ≡ (some rest_of_header ∷ some jpeg ∷ some second_frame.picture ∷ []) ++ []
connect_and_stream_delivers_example =
    connect_and_stream_delivers true ([] ∷ (refused ∷ no_socket ∷ []) ∷ []) (refused ∷ []) []
      connection [] [] (first_frame ∷ second_frame ∷ []) (tt, ((tt, (tt, tt)), tt)) (tt, tt)
      (seven, (more, tt)) whole (first_frame-Fits, (second_frame-Fits, tt))
  where
    seven : 0 < length (take 7 whole_stream)
    seven = unfold send_stream preamble in omega arith

    more : 0 < length (drop 7 whole_stream)
    more = unfold send_stream preamble in omega arith

    whole : concat (take 7 whole_stream ∷ drop 7 whole_stream ∷ []) ≡ whole_stream
    whole =
        ap (λ s. take 7 whole_stream ++ s) (append-nil (drop 7 whole_stream))
        ∙ take-append-drop 7 whole_stream

request_answered_example :
    actions (
      client_thread
        (record { wxp_compat = true; managment = true })
        (record { credentials = none; www_folder = none; nocommands = true })
        (record { incnt = 1; out_names = []; take_cmd = λ i n. pos 0 })
        false
        (arrived (take 9 request) ∷ arrived (drop 9 request) ∷ []))
    ≡ Types.send_stream (pos 0) ∷ []
request_answered_example =
    request_answered (record { wxp_compat = true; managment = true })
      (record { credentials = none; www_folder = none; nocommands = true })
      (record { incnt = 1; out_names = []; take_cmd = λ i n. pos 0 })
      (arrived (take 9 request) ∷ arrived (drop 9 request) ∷ []) refl (omega arith)
      ((omega arith, omega arith), ((omega arith, omega arith), tt)) refl
