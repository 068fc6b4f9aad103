-- ===== src/Http/Files/Tests.antt =====
-- Runs of `send_file` and `execute_cgi`, and their theorems at concrete inputs.
use robotica_movel.Prelude.{
  ℕ, ◌+◌, ◌≤◌, ◌<◌, Bool, true, false, List, [], ◌∷◌, ◌++◌, Option, none, some, ◌≡◌, refl, ◌↔◌,
  arith, Bytes, codes, length, if◌then◌else◌,
}
use robotica_movel.CString.{str_eq, elem}
use robotica_movel.CString.Number.{decimal}
use robotica_movel.Prelude.Int.{pos}
use robotica_movel.Http.Reader.{Event, arrived}
use robotica_movel.Http.Types.{Build, Config, Plugins}
use robotica_movel.Http.Response.{send_error}
use robotica_movel.Http.Files.{
  last_dot, mimetype, path, file_header, send_opened, send_typed, send_file, cgi_command, cgi_room,
}
use robotica_movel.Http.Files.Folder.{send_file_serves, cgi_command_fits}

-- One file, in two reads.
abbrev one_file : Bytes → Option (List Bytes)
one_file name =
    if str_eq name (codes "www/a.b.txt") then some (codes "he" ∷ codes "llo" ∷ []) else none

abbrev all_written : ℕ → Bool
all_written i = true

sent_whole :
    send_file one_file all_written (codes "www/") (some (codes "a.b.txt"))
    ≡ file_header (codes "text/plain") ++ codes "hello"
unfolding send_file last_dot mimetype path send_typed send_opened str_eq
sent_whole = refl

hidden_file :
    send_file one_file all_written (codes "www/") (some (codes ".html"))
    ≡ send_error 400 (codes "No file extension found")
unfolding send_file last_dot
hidden_file = refl

-- The file name and its extension are told apart at the last dot.
send_file_serves_example :
    send_file one_file all_written (codes "www/") (some (codes "a.b.txt"))
    ≡ file_header (codes "text/plain") ++ codes "hello"
send_file_serves_example =
    send_file_serves one_file all_written (codes "www/") b'a' (codes ".b") (codes "txt")
      (codes "text/plain") (codes "he" ∷ codes "llo" ∷ []) (unfold elem in refl)
      (unfold mimetype in unfold str_eq in refl) (omega arith) (unfold str_eq in refl)
      (omega arith, (omega arith, tt)) (λ i. refl)

cgi_command_fits_example :
    (length (cgi_command 8080 (codes "x.cgi") (codes "a=1") (codes "www/x.cgi"))
      < cgi_room (codes "www/x.cgi") (codes "x.cgi"))
    ↔ (length (codes "a=1") + length (decimal 8080) ≤ 263)
cgi_command_fits_example = cgi_command_fits 8080 (codes "x.cgi") (codes "a=1") (codes "www/x.cgi")

-- A file system that has a further file outside of the folder.
abbrev with_secret : Bytes → Option (List Bytes)
with_secret name =
    if str_eq name (codes "/etc/passwd") then some (codes "secret" ∷ []) else one_file name

abbrev build : Build
build = record { wxp_compat = false; managment = false }

abbrev config : Config
config = record { credentials = none; www_folder = some (codes "www/"); nocommands = true }

abbrev no_plugins : Plugins
no_plugins = record { incnt = 0; out_names = []; take_cmd = λ i n. pos 0 }

abbrev traversal : List Event
traversal = arrived (codes "GET /../etc/passwd HTTP/1.0\r\n\r\n") ∷ []
