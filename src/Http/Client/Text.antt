-- ===== src/Http/Client/Text.antt =====
-- `client_thread` as a function of the text that the client sends: neither the packets nor the
-- buffer show in what it does.
use robotica_movel.Prelude.{
  ℕ, zero, suc, ◌<◌, Bool, true, false, List, [], ◌∷◌, ◌++◌, Option, none, some, ◌≡◌, refl, sym, ap,
  ◌∙◌, ◌≢◌, arith, Bool-cases, inl, inr, Bytes, length, All,
}
use mathlib.Core.Path.{subst}
use robotica_movel.CString.{c_string}
use robotica_movel.Prelude.Int.{ℤ}
use robotica_movel.Http.Reader.{
  Iobuffer, init_iobuffer, Event, LineResult, line, no_line, stopped, readline, bytes_left,
}
use robotica_movel.Http.Reader.Lines.{
  text, IsValid, Fits, first_line, view, Ready, readline_refines, readline-Ready, first_line-less,
  init_iobuffer-IsValid,
}
use robotica_movel.Http.Reader.Progress.{readline-less}
use robotica_movel.Http.Types.{Build, Config, Plugins, Request, Action, error}
use robotica_movel.Http.Client.RequestLine.{Parsed, parsed, rejected, classify, input_number}
use robotica_movel.Http.Client.HeaderLines.{
  Header, complete, broken, exited, no_fuel, line_size, on_line, is_last, header_line, read_header,
}
use robotica_movel.Http.Client.Reply.{finish}
use robotica_movel.Http.Client.Ends.{read_header-ne-no_fuel}
use robotica_movel.Http.Client.{
  ClientResult, done, process_exit, out_of_fuel, after_header, after_request, on_request_line,
  client_thread,
}

-- The specification over the text of the connection. `n` bounds the lines of the header.
unfoldable pub header_text : ℕ → Request → Bytes → Option Request
header_text zero req s = none
header_text (suc n) req s = elim (first_line line_size [] s) [
  | none ↦ none
  | some (l, rest) ↦ elim (is_last l) [
    | true ↦ some (header_line req (c_string l))
    | false ↦ header_text n (header_line req (c_string l)) rest
  ]
]

-- What follows the request line, on the text behind it.
unfoldable pub request_text : Config → Plugins → Bytes → Parsed → Bytes → List Action
request_text cfg p buffer (rejected code message) s = error code message ∷ []
request_text cfg p buffer (parsed req suffixed acts) s = elim (header_text (suc (length s)) req s) [
  | none ↦ acts
  | some req' ↦ acts ++ finish cfg p req' suffixed (input_number req.type suffixed buffer)
]

unfoldable pub client_text : Build → Config → Plugins → Bool → Bytes → List Action
client_text b cfg p cheater s = elim (first_line line_size [] s) [
  | none ↦ []
  | some (l, rest) ↦ request_text cfg p (c_string l) (classify b cheater (c_string l)) rest
]

-- What the client sees of the thread.
abbrev pub actions : ClientResult → List Action
actions (done acts) = acts
actions (process_exit acts) = acts
actions out_of_fuel = []

abbrev header_view : Header → Option Request
header_view (complete req) = some req
header_view _ = none

-- One round, against the text: the rounds behind it are compared by `later`.
on_line-text :
    (g : ℕ) (r : LineResult) (req : Request) (s : Bytes)
    (next : Request → List Event → Iobuffer → Header)
    → view r ≡ first_line line_size [] s
    → ((l : Bytes) (io : Iobuffer) (es : List Event) (req' : Request)
        → r ≡ line l io es
        → header_view (next req' es io) ≡ header_text g req' (text io es))
    → header_view (on_line r req next) ≡ header_text (suc g) req s
unfolding on_line header_text first_line
on_line-text g no_line req s next e later = rw (← e, header_text)
on_line-text g stopped req s next e later = rw (← e, header_text)
on_line-text g (line l io es) req s next e later = elim (Bool-cases (is_last l)) [
  | inl last ↦ rw (← e, header_text) (rw (last, on_line))
  | inr more ↦
      rw (← e, header_text) (rw (more, on_line) (later l io es (header_line req (c_string l)) refl))
]

read_header-text :
    (fuel g : ℕ) (req : Request) (es : List Event) (io : Iobuffer)
    → IsValid io
    → All Fits es
    → bytes_left es io < fuel
    → length (text io es) < g
    → header_view (read_header fuel req es io) ≡ header_text g req (text io es)
unfolding read_header
read_header-text zero g req es io v f h k = absurd (omega arith)
read_header-text (suc fuel) zero req es io v f h k = absurd (omega arith)
read_header-text (suc fuel) (suc g) req es io v f h k =
    on_line-text g (readline es io line_size) req (text io es) _
      (readline_refines es io line_size v f)
      (λ l io' es' req' e.
        let (v', f') = subst Ready e (readline-Ready es io line_size v f) in
        let split = sym (readline_refines es io line_size v f) ∙ ap view e in
        read_header-text fuel g req' es' io' v' f'
          (omega (arith, readline-less es io line_size (omega arith) e))
          (omega (
            arith,
            first_line-less line_size [] (text io es) l (text io' es') (omega arith) split,
          )))

after_header-text :
    (cfg : Config) (p : Plugins) (suffixed : Bool) (n : ℤ) (acts : List Action) (h : Header)
    → h ≢ no_fuel
    → actions (after_header cfg p suffixed n acts h)
      ≡ elim (header_view h) [ none ↦ acts | some req ↦ acts ++ finish cfg p req suffixed n ]
unfolding after_header
after_header-text cfg p suffixed n acts (complete req) ne = refl
after_header-text cfg p suffixed n acts broken ne = refl
after_header-text cfg p suffixed n acts exited ne = refl
after_header-text cfg p suffixed n acts no_fuel ne = absurd (ne refl)

after_request-text :
    (cfg : Config) (p : Plugins) (buffer : Bytes) (r : Parsed) (es : List Event) (io : Iobuffer)
    → IsValid io
    → All Fits es
    → actions (after_request cfg p buffer r es io) ≡ request_text cfg p buffer r (text io es)
unfolding after_request request_text
after_request-text cfg p buffer (rejected code message) es io v f = refl
after_request-text cfg p buffer (parsed req suffixed acts) es io v f =
    let n = input_number req.type suffixed buffer in
    let enough = read_header-ne-no_fuel (suc (bytes_left es io)) req es io (omega arith) in
    after_header-text cfg p suffixed n acts _ enough
    ∙ rw (
        read_header-text (suc (bytes_left es io)) (suc (length (text io es))) req es io v f
          (omega arith) (omega arith))

on_request_line-text :
    (b : Build) (cfg : Config) (p : Plugins) (cheater : Bool) (r : LineResult) (s : Bytes)
    → view r ≡ first_line line_size [] s
    → Ready r
    → actions (on_request_line b cfg p cheater r) ≡ client_text b cfg p cheater s
unfolding on_request_line client_text first_line
on_request_line-text b cfg p cheater no_line s e h = rw (← e, client_text)
on_request_line-text b cfg p cheater stopped s e h = rw (← e, client_text)
on_request_line-text b cfg p cheater (line l io es) s e h =
    rw (← e, client_text)
      (after_request-text cfg p (c_string l) (classify b cheater (c_string l)) es io h.0 h.1)

-- What `client_thread` does for its client is a function of the text that the client sends before
-- it stops sending: however the network cuts this text into packets of 1 to 256 bytes.
pub client_thread_refines :
    (b : Build) (cfg : Config) (p : Plugins) (cheater : Bool) (es : List Event)
    → All Fits es
    → actions (client_thread b cfg p cheater es)
      ≡ client_text b cfg p cheater (text init_iobuffer es)
unfolding client_thread
client_thread_refines b cfg p cheater es f =
    on_request_line-text b cfg p cheater (readline es init_iobuffer line_size)
      (text init_iobuffer es) (readline_refines es init_iobuffer line_size init_iobuffer-IsValid f)
      (readline-Ready es init_iobuffer line_size init_iobuffer-IsValid f)
