-- ===== src/Http/Client/Run.antt =====
-- What holds of every action that `client_thread` takes: of the errors of the request line, and of
-- what `finish` does with the request that the header completes.
use robotica_movel.Prelude.{
  ℕ, zero, suc, Bool, true, false, List, [], ◌∷◌, ◌++◌, ◌≡◌, ◌∙◌, arith, Bytes,
}
use robotica_movel.CString.{c_string}
use robotica_movel.Http.Reader.{
  Iobuffer, init_iobuffer, Event, LineResult, line, no_line, stopped, readline, bytes_left,
}
use robotica_movel.Http.Types.{Build, Config, Plugins, Request, Action, error}
use robotica_movel.Http.Client.RequestLine.{Parsed, parsed, rejected, classify, input_number}
use robotica_movel.Http.Client.HeaderLines.{
  Header, complete, broken, exited, no_fuel, line_size, on_line, is_last, header_line, read_header,
}
use robotica_movel.Http.Client.Reply.{finish}
use robotica_movel.Http.Client.{after_header, after_request, on_request_line, client_thread}
use robotica_movel.Http.Client.RequestLine.Shape.{HasShape, classify-Shape}
use robotica_movel.Http.Client.Text.{actions}

-- The header lines leave these fields of the request alone.
pub record Keeps (req req' : Request) : Type 0 where
  pub type_is : req'.type ≡ req.type
  pub parameter_is : req'.parameter ≡ req.parameter
  pub query_is : req'.query_string ≡ req.query_string

header_line-Keeps : (req : Request) (l : Bytes) → Keeps req (header_line req l)
unfolding header_line
header_line-Keeps req l = ground arith

Keeps-trans : {r s t : Request} → Keeps r s → Keeps s t → Keeps r t
Keeps-trans h k = record {
  type_is = k.type_is ∙ h.type_is;
  parameter_is = k.parameter_is ∙ h.parameter_is;
  query_is = k.query_is ∙ h.query_is;
}

abbrev HeaderKeeps : Request → Header → Type 0
HeaderKeeps req (complete req') = Keeps req req'
HeaderKeeps req _ = Unit

HeaderKeeps-trans : (r s : Request) (h : Header) → Keeps r s → HeaderKeeps s h → HeaderKeeps r h
HeaderKeeps-trans r s (complete t) h k = Keeps-trans h k
HeaderKeeps-trans r s broken h k = tt
HeaderKeeps-trans r s exited h k = tt
HeaderKeeps-trans r s no_fuel h k = tt

on_line-Keeps :
    (r : LineResult) (req : Request) (next : Request → List Event → Iobuffer → Header)
    → ((req' : Request) (es : List Event) (io : Iobuffer) → HeaderKeeps req' (next req' es io))
    → HeaderKeeps req (on_line r req next)
unfolding on_line
on_line-Keeps no_line req next h = tt
on_line-Keeps stopped req next h = tt
on_line-Keeps (line l io es) req next h = by_test (is_last l)
  where
    by_test :
        (b : Bool)
        → HeaderKeeps req (elim b [
          | true ↦ complete (header_line req (c_string l))
          | false ↦ next (header_line req (c_string l)) es io
        ])
    by_test true = header_line-Keeps req (c_string l)
    by_test false =
        HeaderKeeps-trans req _ (next (header_line req (c_string l)) es io)
          (header_line-Keeps req (c_string l)) (h (header_line req (c_string l)) es io)

read_header-Keeps :
    (fuel : ℕ) (req : Request) (es : List Event) (io : Iobuffer)
    → HeaderKeeps req (read_header fuel req es io)
unfolding read_header
read_header-Keeps zero req es io = tt
read_header-Keeps (suc fuel) req es io =
    on_line-Keeps (readline es io line_size) req _
      (λ req' es' io'. read_header-Keeps fuel req' es' io')

-- A property of the actions that holds of nothing, of one error, of what the request line does,
-- and of this with the answer behind it, holds of the thread.
module _ (b : Build) (cfg : Config) (p : Plugins) (cheater : Bool) (Q : List Action → Type 0)
    (nothing : Q []) (refused : (code : ℕ) (message : Bytes) → Q (error code message ∷ []))
    (early : (req : Request) (suffixed : Bool) (acts : List Action)
      → HasShape b (parsed req suffixed acts)
      → Q acts)
    (answered : (req req' : Request) (suffixed : Bool) (acts : List Action) (buffer : Bytes)
      → HasShape b (parsed req suffixed acts)
      → Keeps req req'
      → Q (acts ++ finish cfg p req' suffixed (input_number req.type suffixed buffer))) where
  header_run :
      (req : Request) (suffixed : Bool) (acts : List Action) (buffer : Bytes) (h : Header)
      → HasShape b (parsed req suffixed acts)
      → HeaderKeeps req h
      → Q (actions (after_header cfg p suffixed (input_number req.type suffixed buffer) acts h))
  unfolding after_header
  header_run req suffixed acts buffer (complete req') s k =
      answered req req' suffixed acts buffer s k
  header_run req suffixed acts buffer broken s k = early req suffixed acts s
  header_run req suffixed acts buffer exited s k = early req suffixed acts s
  header_run req suffixed acts buffer no_fuel s k = nothing

  request_run :
      (buffer : Bytes) (r : Parsed) (es : List Event) (io : Iobuffer)
      → HasShape b r
      → Q (actions (after_request cfg p buffer r es io))
  unfolding after_request
  request_run buffer (rejected code message) es io s = refused code message
  request_run buffer (parsed req suffixed acts) es io s =
      header_run req suffixed acts buffer _ s (read_header-Keeps (suc (bytes_left es io)) req es io)

  line_run : (r : LineResult) → Q (actions (on_request_line b cfg p cheater r))
  unfolding on_request_line
  line_run no_line = nothing
  line_run stopped = nothing
  line_run (line l io es) =
      request_run (c_string l) (classify b cheater (c_string l)) es io
        (classify-Shape b cheater (c_string l))

  pub thread_run : (es : List Event) → Q (actions (client_thread b cfg p cheater es))
  unfolding client_thread
  thread_run es = line_run (readline es init_iobuffer line_size)
