-- ===== src/Http/Files/Folder.antt =====
-- Which files `send_file` and `execute_cgi` of plugins/output_http/httpd.c let a client see, and the
-- buffer of the command.
use robotica_movel.Prelude.{
  concat, ℕ, take, ◌+◌, ◌-◌, ◌≤◌, ◌<◌, Bool, true, false, List, [], ◌∷◌, ◌++◌, Option, some, ◌≡◌,
  sym, ap, ◌∙◌, ◌↔◌, arith, Bytes, length, length-append, All, all, take_all, append-nil,
}
use robotica_movel.CString.{elem}
use robotica_movel.CString.Number.{decimal}
use robotica_movel.Http.Response.{http_buffer}
use robotica_movel.Http.Types.{Action}
use robotica_movel.Http.Types
use robotica_movel.Http.Client.RequestLine.Shape.{is_plain}
use robotica_movel.Http.Files.{
  mimetypes, mimetype, path, before_port, before_name, before_query, behind_query, file_header,
  sent_reads, send_opened, send_typed, send_file, cgi_command, cgi_room, execute_cgi,
}
use robotica_movel.Http.Files.Extension.{sends_typed}

-- Every read gives bytes.
abbrev pub AreFull : List Bytes → Type 0
AreFull reads = All (λ s. 0 < length s) reads

sent_reads_whole :
    (writes : ℕ → Bool) (k : ℕ) (buffer : Bytes) (reads : List Bytes)
    → ((i : ℕ) → writes i ≡ true)
    → AreFull reads
    → sent_reads writes k buffer reads ≡ buffer ++ concat reads
unfolding sent_reads
sent_reads_whole writes k buffer [] h full = rw (h k) (sym (append-nil buffer))
sent_reads_whole writes k buffer ([] ∷ reads) h full = absurd (omega (arith, full.0))
sent_reads_whole writes k buffer ((c ∷ s) ∷ reads) h full =
    rw (h k) (ap (λ x. buffer ++ x) (sent_reads_whole writes (k + 1) (c ∷ s) reads h full.1))

-- A path that fits into `buffer` is not cut off.
path_whole :
    (www_folder name : Bytes)
    → length www_folder + length name < http_buffer
    → path www_folder name ≡ www_folder ++ name
unfolding path
path_whole www_folder name h =
    rw (take_all (http_buffer - 1) www_folder (omega arith))
      (ap (λ x. www_folder ++ x) (take_all _ name (omega arith)))

-- When the name has a stem of at least one byte and an extension of the table, the path fits into
-- the buffer, the file opens, its reads give bytes until they end, and every `write` succeeds, then
-- `send_file` sends the header with the type of the extension, and the whole file.
pub send_file_serves :
    (open_file : Bytes → Option (List Bytes)) (writes : ℕ → Bool) (www_folder : Bytes) (c : ℕ)
    (stem extension type : Bytes) (reads : List Bytes)
    → elem b'.' extension ≡ false
    → mimetype mimetypes (b'.' ∷ extension) ≡ some type
    → length www_folder + length ((c ∷ stem) ++ b'.' ∷ extension) < http_buffer
    → open_file (www_folder ++ ((c ∷ stem) ++ b'.' ∷ extension)) ≡ some reads
    → AreFull reads
    → ((i : ℕ) → writes i ≡ true)
    → send_file open_file writes www_folder (some ((c ∷ stem) ++ b'.' ∷ extension))
      ≡ file_header type ++ concat reads
unfolding send_typed send_opened
send_file_serves open_file writes www_folder c stem extension type reads last known room opened full
      h =
    sends_typed open_file writes www_folder c stem extension last
    ∙ (ap (λ o. send_typed open_file writes (path www_folder ((c ∷ stem) ++ b'.' ∷ extension)) o)
          known
        ∙ (ap (λ o. send_opened writes type o)
              (ap open_file (path_whole www_folder ((c ∷ stem) ++ b'.' ∷ extension) room) ∙ opened)
            ∙ sent_reads_whole writes 0 (file_header type) reads h full))

-- `case A_FILE` and `case A_CGI`: what the client gets of the files.
unfoldable pub served :
    (Bytes → Option (List Bytes))
    → (Bytes → Option (List Bytes))
    → (ℕ → Bool)
    → ℕ
    → Bytes
    → Action
    → Bytes
served open_file run writes port www_folder (Types.send_file name) =
    send_file open_file writes www_folder name
served open_file run writes port www_folder (Types.execute_cgi (some name) (some query)) =
    execute_cgi open_file run writes port www_folder name query
served open_file run writes port www_folder _ = []

module _ (open_file other_file : Bytes → Option (List Bytes)) (writes : ℕ → Bool) where
  -- Both file systems give the same for the plain names of the folder; a path is cut off where
  -- `buffer` ends.
  abbrev AgreeIn : Bytes → Type 0
  AgreeIn www_folder =
      (name : Bytes)
      → all is_plain name ≡ true
      → open_file (take (http_buffer - 1) (www_folder ++ name))
        ≡ other_file (take (http_buffer - 1) (www_folder ++ name))

length-command :
    (a b c d port parameter query_string fn_buffer : Bytes)
    → length (a ++ (port ++ (b ++ (parameter ++ (c ++ (query_string ++ (d ++ fn_buffer)))))))
      ≡ length a
        + length b
        + length c
        + length d
        + length port
        + length parameter
        + length query_string
        + length fn_buffer
length-command a b c d port parameter query_string fn_buffer = omega (
  arith,
  length-append a (port ++ (b ++ (parameter ++ (c ++ (query_string ++ (d ++ fn_buffer)))))),
  length-append port (b ++ (parameter ++ (c ++ (query_string ++ (d ++ fn_buffer))))),
  length-append b (parameter ++ (c ++ (query_string ++ (d ++ fn_buffer)))),
  length-append parameter (c ++ (query_string ++ (d ++ fn_buffer))),
  length-append c (query_string ++ (d ++ fn_buffer)),
  length-append query_string (d ++ fn_buffer),
  length-append d fn_buffer,
)

-- The command of `execute_cgi` fits into its buffer, the NUL included, exactly when the query string
-- and the digits of the port have together at most 263 bytes: the length of the buffer leaves them
-- out.
pub cgi_command_fits :
    (port : ℕ) (parameter query_string fn_buffer : Bytes)
    → (length (cgi_command port parameter query_string fn_buffer) < cgi_room fn_buffer parameter)
      ↔ (length query_string + length (decimal port) ≤ 263)
unfolding cgi_command cgi_room
cgi_command_fits port parameter query_string fn_buffer =
    let whole =
      length-command before_port before_name before_query behind_query (decimal port) parameter
        query_string fn_buffer in
    (λ h. omega (arith, h, whole), λ h. omega (arith, h, whole))
