-- ===== src/Http/Tests.antt =====
-- Runs of the HTTP plugin, and its theorems at concrete inputs.
use robotica_movel.Prelude.{
  true, false, List, [], ◌∷◌, none, some, ◌≡◌, ◌≢◌, refl, arith, Bytes, codes, length, All, all,
  ◌≤◌, ◌*◌,
}
use robotica_movel.Prelude.Int.{pos}
use robotica_movel.CString.{c_string, contains, strchr, contains_nocase}
use robotica_movel.CString.Number.{strtol_int}
use robotica_movel.Http.Reader.{Event, init_iobuffer, readline, arrived}
use robotica_movel.Http.Reader.Lines.{
  text, first_line, view, readline_refines, init_iobuffer-IsValid,
}
use robotica_movel.Http.Base64.{decode_base64}
use robotica_movel.Http.Base64.Encode.{encode, decode_base64-encode, length-decode_base64}
use robotica_movel.Http.Escape.{unescape}
use robotica_movel.Http.Escape.Decode.{decode, Ends}
use robotica_movel.Http.Escape.Loop.{unescape_refines}
use robotica_movel.Http.Types.{Build, Config, Plugins, send_snapshot, send_file}
use robotica_movel.Http.Client.{done, client_thread, out_of_fuel}
use robotica_movel.Http.Client.HeaderLines.{is_last, header_line}
use robotica_movel.Http.Client.RequestLine.{accepted}
use robotica_movel.Http.Client.RequestLine.Shape.{is_refusal}
use robotica_movel.Http.Client.Text.{actions, client_text, client_thread_refines}
use robotica_movel.Http.Client.Ends.{client_thread-ends}
use robotica_movel.Http.Client.Safe.{HasPlainName, file_names_are_plain}
use robotica_movel.Http.Client.Range.{IsInRange, plugin_numbers-IsInRange}
use robotica_movel.Http.Client.Access.{no_password_is_refused}

abbrev plain : Build
plain = record { wxp_compat = false; managment = false }

abbrev open_config : Config
open_config = record { credentials = none; www_folder = some (codes "/www/"); nocommands = false }

abbrev locked : Config
locked = record open_config { credentials = some (codes "admin:123") }

abbrev two_inputs : Plugins
two_inputs = record { incnt = 2; out_names = []; take_cmd = λ i n. pos 0 }

abbrev get_snapshot : Bytes
get_snapshot = codes "GET /?action=snapshot_1 HTTP/1.0\r\n"

-- The request and the end of the header, in two packets.
abbrev two_packets : List Event
two_packets = arrived get_snapshot ∷ arrived (codes "\r\n") ∷ []

snapshot_second :
    client_thread plain open_config two_inputs false two_packets ≡ done (send_snapshot (pos 1) ∷ [])
unfolding client_thread contains c_string is_last strchr strtol_int header_line contains_nocase
snapshot_second = refl

file_with_password :
    client_thread plain locked two_inputs false
      (arrived (codes "GET /index.html HTTP/1.0\r\nAuthorization: Basic YWRtaW46MTIz\r\n\r\n") ∷ [])
    ≡ done (send_file (some (codes "index.html")) ∷ [])
unfolding client_thread contains c_string is_last header_line contains_nocase decode_base64 accepted
file_with_password = refl

client_thread_refines_example :
    actions (client_thread plain open_config two_inputs false two_packets)
    ≡ client_text plain open_config two_inputs false (text init_iobuffer two_packets)
client_thread_refines_example =
    client_thread_refines plain open_config two_inputs false two_packets
      ((omega arith, omega arith), ((omega arith, omega arith), tt))

no_password_is_refused_example :
    all is_refusal (actions (client_thread plain locked two_inputs false two_packets)) ≡ true
no_password_is_refused_example =
    no_password_is_refused plain locked two_inputs false two_packets (codes "admin:123") refl
      ((omega arith, omega arith), ((omega arith, omega arith), tt))
      (unfold contains_nocase in refl)

plugin_numbers-IsInRange_example :
    All
      (IsInRange two_inputs)
      (actions (client_thread plain open_config two_inputs false two_packets))
plugin_numbers-IsInRange_example =
    plugin_numbers-IsInRange plain open_config two_inputs false two_packets refl

file_names_are_plain_example : All HasPlainName (
    actions (
      client_thread plain open_config two_inputs false
        (arrived (codes "GET /../etc/passwd HTTP/1.0\r\n\r\n") ∷ [])))
file_names_are_plain_example =
    file_names_are_plain plain open_config two_inputs false
      (arrived (codes "GET /../etc/passwd HTTP/1.0\r\n\r\n") ∷ [])

client_thread-ends_example :
    client_thread plain open_config two_inputs false two_packets ≢ out_of_fuel
client_thread-ends_example = client_thread-ends plain open_config two_inputs false two_packets

readline_refines_example :
    view (readline (arrived (codes "GET /\r\nHost") ∷ []) init_iobuffer 100)
    ≡ first_line 100 [] (text init_iobuffer (arrived (codes "GET /\r\nHost") ∷ []))
readline_refines_example =
    readline_refines (arrived (codes "GET /\r\nHost") ∷ []) init_iobuffer 100 init_iobuffer-IsValid
      ((omega arith, omega arith), tt)

decode_base64-encode_example : c_string (decode_base64 (encode (codes "ab"))) ≡ codes "ab"
decode_base64-encode_example =
    decode_base64-encode (codes "ab") (omega arith, (omega arith, tt))
      ((λ e. absurd (omega arith)), ((λ e. absurd (omega arith)), tt))

length-decode_base64_example : 4 * length (decode_base64 (codes "YWI=")) ≤ 3 * length (codes "YWI=")
length-decode_base64_example = length-decode_base64 (codes "YWI=")

unescape_refines_example : Ends (decode (codes "a%20b%")) [] (unescape (codes "a%20b%"))
unescape_refines_example = unescape_refines (codes "a%20b%")
