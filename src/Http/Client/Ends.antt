-- ===== src/Http/Client/Ends.antt =====
-- `client_thread` always ends.
use robotica_movel.Prelude.{ℕ, zero, suc, ◌<◌, Bool, List, ◌≡◌, refl, ◌≢◌, arith, Bytes}
use robotica_movel.CString.{c_string}
use robotica_movel.Prelude.Int.{ℤ}
use robotica_movel.Http.Reader.{
  Iobuffer, init_iobuffer, Event, LineResult, line, no_line, stopped, readline, bytes_left,
}
use robotica_movel.Http.Reader.Progress.{readline-less}
use robotica_movel.Http.Types.{Build, Config, Plugins, Request, Action}
use robotica_movel.Http.Client.RequestLine.{Parsed, parsed, rejected, classify, input_number}
use robotica_movel.Http.Client.HeaderLines.{
  Header, complete, broken, exited, no_fuel, line_size, on_line, header_line, read_header,
}
use robotica_movel.Http.Client.{
  out_of_fuel, after_header, after_request, on_request_line, client_thread,
}

on_line-ne-no_fuel :
    (r : LineResult) (req : Request) (next : Request → List Event → Iobuffer → Header)
    → ((l : Bytes) (io : Iobuffer) (es : List Event)
        → r ≡ line l io es
        → (req' : Request) → next req' es io ≢ no_fuel)
    → on_line r req next ≢ no_fuel
unfolding on_line
on_line-ne-no_fuel no_line req next h = ground arith
on_line-ne-no_fuel stopped req next h = ground arith
on_line-ne-no_fuel (line l io es) req next h =
    ground (arith, h l io es refl (header_line req (c_string l)))

pub read_header-ne-no_fuel :
    (fuel : ℕ) (req : Request) (es : List Event) (io : Iobuffer)
    → bytes_left es io < fuel
    → read_header fuel req es io ≢ no_fuel
unfolding read_header
read_header-ne-no_fuel zero req es io h = absurd (omega arith)
read_header-ne-no_fuel (suc fuel) req es io h =
    on_line-ne-no_fuel (readline es io line_size) req _ (λ l io' es' e req'.
      read_header-ne-no_fuel fuel req' es' io'
        (omega (arith, readline-less es io line_size (omega arith) e)))

after_header-ends :
    (cfg : Config) (p : Plugins) (suffixed : Bool) (n : ℤ) (acts : List Action) (h : Header)
    → h ≢ no_fuel
    → after_header cfg p suffixed n acts h ≢ out_of_fuel
unfolding after_header
after_header-ends cfg p suffixed n acts (complete req) ne = ground arith
after_header-ends cfg p suffixed n acts broken ne = ground arith
after_header-ends cfg p suffixed n acts exited ne = ground arith
after_header-ends cfg p suffixed n acts no_fuel ne = absurd (ne refl)

after_request-ends :
    (cfg : Config) (p : Plugins) (buffer : Bytes) (r : Parsed) (es : List Event) (io : Iobuffer)
    → after_request cfg p buffer r es io ≢ out_of_fuel
unfolding after_request
after_request-ends cfg p buffer (rejected code message) es io = ground arith
after_request-ends cfg p buffer (parsed req suffixed acts) es io =
    after_header-ends cfg p suffixed (input_number req.type suffixed buffer) acts _
      (read_header-ne-no_fuel (suc (bytes_left es io)) req es io (omega arith))

on_request_line-ends :
    (b : Build) (cfg : Config) (p : Plugins) (cheater : Bool) (r : LineResult)
    → on_request_line b cfg p cheater r ≢ out_of_fuel
unfolding on_request_line
on_request_line-ends b cfg p cheater no_line = ground arith
on_request_line-ends b cfg p cheater stopped = ground arith
on_request_line-ends b cfg p cheater (line l io es) =
    after_request-ends cfg p (c_string l) (classify b cheater (c_string l)) es io

-- `client_thread` ends for every sequence of packets, time-outs and errors: the fuel of its
-- header loop always suffices.
pub client_thread-ends :
    (b : Build) (cfg : Config) (p : Plugins) (cheater : Bool) (es : List Event)
    → client_thread b cfg p cheater es ≢ out_of_fuel
unfolding client_thread
client_thread-ends b cfg p cheater es =
    on_request_line-ends b cfg p cheater (readline es init_iobuffer line_size)
