-- ===== src/Http/Client/HeaderLines.antt =====
-- The second part of `client_thread` of plugins/output_http/httpd.c: the lines of the header.
use robotica_movel.Prelude.{
  ℕ, zero, suc, Bool, true, false, not, ◌&&◌, List, [], ◌∷◌, some, ltb, if◌then◌else◌, Bytes, codes,
  length, drop,
}
use robotica_movel.CString.{contains_nocase, starts_with, c_string}
use robotica_movel.Http.Base64.{decode_base64}
use robotica_movel.Http.Reader.{Iobuffer, Event, LineResult, line, no_line, stopped, readline}
use robotica_movel.Http.Types.{Request}

-- `sizeof(buffer) - 1`, with BUFFER_SIZE 1024
abbrev pub line_size : ℕ
line_size = 1023

abbrev pub user_agent : Bytes
user_agent = codes "User-Agent: "

abbrev pub authorization : Bytes
authorization = codes "Authorization: Basic "

-- What a header line leaves in the request. The values are taken at a fixed offset of the line,
-- wherever the keyword stands in it; the decoded credentials are read as a C string.
unfoldable pub header_line : Request → Bytes → Request
header_line req buffer =
    if contains_nocase buffer user_agent
    then record req { client = some (drop (length user_agent) buffer) }
    else if contains_nocase buffer authorization
    then record req {
      credentials = some (c_string (decode_base64 (drop (length authorization) buffer)));
    }
    else req

-- `!(cnt > 2 && !(buffer[0] == '\r' && buffer[1] == '\n'))`
unfoldable pub is_last : Bytes → Bool
is_last l = not (ltb 2 (length l) && not (starts_with l (b'\r' ∷ b'\n' ∷ [])))

-- The header is read, or the client stopped sending, or `select` failed and the process ends.
pub data Header : Type 0 where
  complete : Request → Header
  broken : Header
  exited : Header
  no_fuel : Header

-- The body of `do { } while`, behind its `_readline`; `next` is the next round.
unfoldable pub on_line : LineResult → Request → (Request → List Event → Iobuffer → Header) → Header
on_line no_line req next = broken
on_line stopped req next = exited
on_line (line l io es) req next = elim (is_last l) [
  | true ↦ complete (header_line req (c_string l))
  | false ↦ next (header_line req (c_string l)) es io
]

-- The loop. Each round reads a byte at least, so the bytes still to come bound the rounds.
unfoldable pub read_header : ℕ → Request → List Event → Iobuffer → Header
read_header zero req es io = no_fuel
read_header (suc fuel) req es io =
    on_line (readline es io line_size) req (λ req' es' io'. read_header fuel req' es' io')
