-- ===== src/Http/Client.antt =====
-- `client_thread` of plugins/output_http/httpd.c, from its parts: the request line, the header and
-- the answer.
pub mod RequestLine
pub mod HeaderLines
pub mod Reply
pub mod Ends
pub mod Text
mod Run
pub mod Safe
pub mod Range
pub mod Access
use robotica_movel.Prelude.{
  ℕ, zero, suc, ◌+◌, ◌-◌, ◌*◌, ◌/◌, ◌%◌, ◌^◌, ◌≤◌, ◌<◌, min, max, Bool, true, false, not, ◌&&◌,
  ◌||◌, List, [], ◌∷◌, ◌++◌, map, Option, none, some, ◌≡◌, refl, sym, ap, ◌∙◌, ◌↔◌, ◌≢◌, ◌⊎◌, arith,
  ltb, leb, ◌==◌, ==_iff, Bool-cases, Option-cases, inl, inr, ltb→lt, leb→le, lt→ltb, if◌then◌else◌,
  Bytes, codes, length, get_elem?, take, drop, replicate, All, all, append-nil, append_assoc,
  length-append, take-append-drop, length-take, length-drop, length-replicate, drop-append,
  take-append, drop_all, take_all, All-append,
}
use robotica_movel.Prelude.Int.{ℤ}
use robotica_movel.CString.{c_string}
use robotica_movel.Http.Reader.{
  Iobuffer, init_iobuffer, Event, LineResult, line, no_line, stopped, readline, bytes_left,
}
use robotica_movel.Http.Types.{Build, Config, Plugins, Request, Action, error}
use RequestLine.{
  Parsed, parsed, rejected, classify, input_number, managed, unescaped, action_request, query_of,
  file_request, suffix_number, is_wxp,
}
use HeaderLines.{Header, complete, broken, exited, no_fuel, line_size, on_line, read_header}
use Reply.{is_admitted, plugin_count, filename_of, find_file_plugin, take_answer, answer, finish}

-- The thread closes the connection after these actions, or `exit` ends the process.
pub data ClientResult : Type 0 where
  done : List Action → ClientResult
  process_exit : List Action → ClientResult
  out_of_fuel : ClientResult

-- What follows the header; `acts` was done before it.
unfoldable pub after_header : Config → Plugins → Bool → ℤ → List Action → Header → ClientResult
after_header cfg p suffixed n acts (complete req) = done (acts ++ finish cfg p req suffixed n)
after_header cfg p suffixed n acts broken = done acts
after_header cfg p suffixed n acts exited = process_exit acts
after_header cfg p suffixed n acts no_fuel = out_of_fuel

-- What follows the request line.
unfoldable pub after_request :
    Config → Plugins → Bytes → Parsed → List Event → Iobuffer → ClientResult
unfolding after_header
after_request cfg p buffer (rejected code message) es io = done (error code message ∷ [])
after_request cfg p buffer (parsed req suffixed acts) es io =
    after_header cfg p suffixed (input_number req.type suffixed buffer) acts
      (read_header (suc (bytes_left es io)) req es io)

-- What follows the first call of `_readline`; `cheater` is the result of `check_client_status`.
unfoldable pub on_request_line : Build → Config → Plugins → Bool → LineResult → ClientResult
on_request_line b cfg p cheater no_line = done []
on_request_line b cfg p cheater stopped = process_exit []
on_request_line b cfg p cheater (line l io es) =
    after_request cfg p (c_string l) (classify b cheater (c_string l)) es io

-- `client_thread` with an argument.
unfoldable pub client_thread : Build → Config → Plugins → Bool → List Event → ClientResult
unfolding on_request_line after_header after_request classify managed unescaped action_request
    query_of file_request suffix_number is_wxp finish is_admitted plugin_count answer take_answer
    filename_of find_file_plugin read_header bytes_left input_number readline on_line
client_thread b cfg p cheater es =
    on_request_line b cfg p cheater (readline es init_iobuffer line_size)
