-- ===== src/Proxy/Request.antt =====
-- The request of plugins/input_http/mjpg-proxy.c, answered by `client_thread` of
-- plugins/output_http/httpd.c.
use robotica_movel.Prelude.{
  ◌+◌, ◌<◌, Bool, true, false, List, [], ◌∷◌, none, ◌≡◌, refl, ap, ◌∙◌, arith, ltb, All,
}
use robotica_movel.Prelude.Int.{pos}
use robotica_movel.CString.{c_string, contains, strchr, contains_nocase}
use robotica_movel.CString.Number.{strtol_int}
use robotica_movel.Http.Reader.{Event, init_iobuffer}
use robotica_movel.Http.Reader.Lines.{text, Fits, first_line}
use robotica_movel.Http.Types.{Build, Config, Plugins, send_stream, stream, init_request}
use robotica_movel.Http.Client.{client_thread}
use robotica_movel.Http.Client.HeaderLines.{is_last, header_line}
use robotica_movel.Http.Client.RequestLine.{classify, input_number, managed, suffix_number}
use robotica_movel.Http.Client.Reply.{finish, is_admitted, plugin_count, answer}
use robotica_movel.Http.Client.Text.{
  actions, client_text, request_text, header_text, client_thread_refines,
}
use robotica_movel.Proxy.Connection.{request}

asked :
    (wxp managment : Bool) (cfg : Config) (p : Plugins)
    → client_text (record { wxp_compat = wxp; managment = managment }) cfg p false request
      ≡ finish cfg p (record init_request { type = stream }) true (pos 0)
unfolding client_text first_line request_text header_text classify contains c_string is_last strchr
    strtol_int header_line contains_nocase input_number managed suffix_number
asked true true cfg p = refl
asked true false cfg p = refl
asked false true cfg p = refl
asked false false cfg p = refl

admitted :
    (cfg : Config) (p : Plugins)
    → cfg.credentials ≡ none
    → 0 < p.incnt
    → finish cfg p (record init_request { type = stream }) true (pos 0) ≡ send_stream (pos 0) ∷ []
unfolding finish is_admitted plugin_count answer
admitted cfg p open_to_all h = rw (open_to_all, in_range) refl
  where
    in_range : ltb (0 + 0) (p.incnt + 0) ≡ true
    in_range = ground arith

-- However the network cuts the request of the proxy into packets of 1 to 256 bytes: a server without
-- a password, with at least one input plugin, whose `check_client_status` does not hold the client
-- back, answers it with a call of `send_stream` for its first input, and with nothing else, in every
-- build.
pub request_answered :
    (b : Build) (cfg : Config) (p : Plugins) (es : List Event)
    → cfg.credentials ≡ none
    → 0 < p.incnt
    → All Fits es
    → text init_iobuffer es ≡ request
    → actions (client_thread b cfg p false es) ≡ send_stream (pos 0) ∷ []
request_answered b cfg p es open_to_all h fits e =
    client_thread_refines b cfg p false es fits
    ∙ (ap (λ s. client_text b cfg p false s) e
        ∙ (asked b.wxp_compat b.managment cfg p ∙ admitted cfg p open_to_all h))
