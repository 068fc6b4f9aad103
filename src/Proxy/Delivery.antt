-- ===== src/Proxy/Delivery.antt =====
-- From the request of plugins/input_http/mjpg-proxy.c over `client_thread` and `send_stream` of
-- plugins/output_http/httpd.c back to `on_image_received`.
use robotica_movel.Prelude.{
  ◌<◌, Bool, true, List, [], ◌∷◌, ◌++◌, map, Option, none, some, ◌≡◌, refl, sym, ap, ◌∙◌, arith,
  if◌then◌else◌, Bool-cases, inl, inr, Bytes, length, concat, All, append_assoc, append-nil,
}
use robotica_movel.Http.Stream.{Frame, stop, sent, send_stream}
use robotica_movel.Proxy.{Extractor, Image, init_extractor, extract_data, step_in, received}
use robotica_movel.Proxy.Connection.{
  Connection, process_response, send_request_and_process_response, Address, no_socket, refused,
  accepts, Lookup, found, probe, Left, on_connection, connect_and_stream,
}
use robotica_movel.Proxy.RoundTrip.{Fits, rest_of_header, extract_data-send_stream}

extract_data-append :
    (char_signed : Bool) (st : Extractor) (s t : Bytes)
    → extract_data char_signed st (s ++ t) ≡ (
      (extract_data char_signed (extract_data char_signed st s).0 t).0,
      (extract_data char_signed st s).1
          ++ (extract_data char_signed (extract_data char_signed st s).0 t).1,
    )
unfolding extract_data
extract_data-append char_signed st [] t = refl
extract_data-append char_signed st (c ∷ s) t =
    let (st', now) = step_in st.part char_signed st c in
    let e = extract_data-append char_signed st' s t in
    ap (λ r. (r.0, now ++ r.1)) e
    ∙ ap (λ l. ((extract_data char_signed (extract_data char_signed st' s).0 t).0, l))
        (sym (
          append_assoc now (extract_data char_signed st' s).1
            (extract_data char_signed (extract_data char_signed st' s).0 t).1))

-- Every packet holds bytes.
abbrev pub AreFull : List Bytes → Type 0
AreFull packets = All (λ s. 0 < length s) packets

-- The parser does not see how the stream is cut into packets.
process_response-concat :
    (char_signed : Bool) (st : Extractor) (packets : List Bytes)
    → AreFull packets
    → process_response char_signed st packets ≡ extract_data char_signed st (concat packets)
unfolding process_response
process_response-concat char_signed st [] h = unfold extract_data in refl
process_response-concat char_signed st ([] ∷ packets) h = absurd (omega (arith, h.0))
process_response-concat char_signed st ((c ∷ s) ∷ packets) h =
    ap (λ r. (r.0, (extract_data char_signed st (c ∷ s)).1 ++ r.1))
      (process_response-concat char_signed (extract_data char_signed st (c ∷ s)).0 packets h.1)
    ∙ sym (extract_data-append char_signed st (c ∷ s) (concat packets))

abbrev pub IsDown : Address → Type 0
IsDown (accepts c) = ⊥
IsDown _ = Unit

abbrev pub AreDown : List Address → Type 0
AreDown addresses = All (λ a. IsDown a) addresses

probe_down : (addresses : List Address) → AreDown addresses → probe addresses ≡ none
unfolding probe
probe_down [] h = refl
probe_down (no_socket ∷ rest) h = probe_down rest h.1
probe_down (refused ∷ rest) h = probe_down rest h.1
probe_down (accepts c ∷ rest) h = absurd h.0

probe-append :
    (before behind : List Address) (c : Connection)
    → AreDown before
    → probe (before ++ accepts c ∷ behind) ≡ some c
unfolding probe
probe-append [] behind c h = refl
probe-append (no_socket ∷ before) behind c h = probe-append before behind c h.1
probe-append (refused ∷ before) behind c h = probe-append before behind c h.1
probe-append (accepts d ∷ before) behind c h = absurd h.0

-- Rounds in which no address accepts change nothing.
goes_on :
    (char_signed : Bool) (failed : List (List Address)) (rounds : List Lookup)
    → All (λ a. AreDown a) failed
    → connect_and_stream char_signed (map found failed ++ rounds)
      ≡ connect_and_stream char_signed rounds
unfolding connect_and_stream on_connection
goes_on char_signed [] rounds h = refl
goes_on char_signed (addresses ∷ failed) rounds h =
    rw (probe_down addresses h.0) (goes_on char_signed failed rounds h.1)

-- What is handed out when a connection is made.
abbrev pub behind_connection : Bool → List (Option Bytes) → List (Option Bytes)
behind_connection should_stop later = if should_stop then [] else later

map-received :
    (now later : List Image) → map received (now ++ later) ≡ map received now ++ map received later
map-received [] later = refl
map-received (i ∷ now) later = ap (λ l. received i ∷ l) (map-received now later)

on_connection-received :
    (char_signed : Bool) (c : Connection) (rest : List Image × Left)
    → map received (on_connection char_signed (some c) rest).0
      ≡ map received (send_request_and_process_response char_signed c.packets)
        ++ behind_connection c.should_stop (map received rest.0)
unfolding on_connection
on_connection-received char_signed c rest = elim (Bool-cases c.should_stop) [
  | inl e ↦ rw e (sym (append-nil _))
  | inr e ↦ rw e (map-received (send_request_and_process_response char_signed c.packets) rest.0)
]

-- The whole stream, cut into packets.
stream_received :
    (char_signed : Bool) (error_500 : Bytes) (frames : List Frame) (packets : List Bytes)
    → AreFull packets
    → concat packets ≡ send_stream true error_500 (map sent frames ++ stop ∷ [])
    → All (λ f. Fits f) frames
    → map received (send_request_and_process_response char_signed packets)
      ≡ some rest_of_header ∷ map (λ f. some f.picture) frames
unfolding send_request_and_process_response
stream_received char_signed error_500 frames packets full e h =
    ap (λ r. map received r.1) (process_response-concat char_signed init_extractor packets full)
    ∙ (ap (λ s. map received (extract_data char_signed init_extractor s).1) e
        ∙ extract_data-send_stream char_signed error_500 frames h)

-- After any number of rounds in which no address accepts, and any number of addresses that do not,
-- an address accepts, and the stream of `send_stream` arrives over it, cut into packets in any way;
-- the boundary occurs in none of the pictures, and each fits into the buffer. Then
-- `connect_and_stream` hands out the rest of the HTTP header and exactly the pictures, whole and in
-- order; unless `should_stop` is set it goes on with the next rounds.
pub connect_and_stream_delivers :
    (char_signed : Bool) (failed : List (List Address)) (before behind : List Address)
    (c : Connection) (rounds : List Lookup) (error_500 : Bytes) (frames : List Frame)
    → All (λ a. AreDown a) failed
    → AreDown before
    → AreFull c.packets
    → concat c.packets ≡ send_stream true error_500 (map sent frames ++ stop ∷ [])
    → All (λ f. Fits f) frames
    → map received
        (connect_and_stream char_signed
          (map found failed ++ found (before ++ accepts c ∷ behind) ∷ rounds)).0
      ≡ (some rest_of_header ∷ map (λ f. some f.picture) frames)
        ++ behind_connection c.should_stop (map received (connect_and_stream char_signed rounds).0)
unfolding connect_and_stream
connect_and_stream_delivers char_signed failed before behind c rounds error_500 frames hf hb full e
      h =
    ap (λ r. map received r.0)
      (goes_on char_signed failed (found (before ++ accepts c ∷ behind) ∷ rounds) hf)
    ∙ (ap
          (λ o.
            map received (on_connection char_signed o (connect_and_stream char_signed rounds)).0)
          (probe-append before behind c hb)
        ∙ (on_connection-received char_signed c (connect_and_stream char_signed rounds)
            ∙ ap
                (λ l.
                  l
                  ++ behind_connection c.should_stop
                      (map received (connect_and_stream char_signed rounds).0))
                (stream_received char_signed error_500 frames c.packets full e h)))
