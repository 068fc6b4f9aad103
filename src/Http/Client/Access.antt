-- ===== src/Http/Client/Access.antt =====
-- A server with a password answers nobody who does not send it.
use robotica_movel.Prelude.{
  ℕ, zero, suc, Bool, true, false, List, [], ◌∷◌, ◌++◌, none, some, ◌≡◌, refl, sym, ap, arith, ◌==◌,
  Bool-cases, Option-cases, inl, inr, Bytes, length, All, all,
}
use mathlib.Core.Path.{subst}
use robotica_movel.Prelude.Int.{ℤ}
use robotica_movel.CString.{c_string}
use robotica_movel.Http.Reader.{init_iobuffer, Event}
use robotica_movel.Http.Types.{Build, Config, Plugins, Request, Action}
use robotica_movel.Http.Client.RequestLine.{Parsed, parsed, rejected, classify}
use robotica_movel.Http.Client.HeaderLines.{line_size, is_last, header_line}
use robotica_movel.Http.Client.Reply.{is_admitted, finish}
use robotica_movel.Http.Client.{client_thread}
use robotica_movel.CString.{contains_nocase, starts_with_nocase}
use robotica_movel.Http.Reader.Lines.{text, Fits, first_line, first_line-append}
use robotica_movel.Http.Client.HeaderLines.{authorization}
use robotica_movel.Http.Client.RequestLine.Shape.{HasShape, classify-Shape, is_refusal}
use robotica_movel.Http.Client.Text.{
  actions, header_text, request_text, client_text, client_thread_refines,
}

starts_with_nocase-append :
    (s r t : Bytes) → starts_with_nocase (s ++ r) t ≡ false → starts_with_nocase s t ≡ false
unfolding starts_with_nocase
starts_with_nocase-append s r [] h = cc
starts_with_nocase-append [] r (y ∷ t) h = refl
starts_with_nocase-append (x ∷ s) r (y ∷ t) h = ground (arith, starts_with_nocase-append s r t)

-- A text that does not hold the word `t` holds it in no part.
module _ (t : Bytes) (not_empty : starts_with_nocase [] t ≡ false) where
  contains_nocase_left :
      (s r : Bytes) → contains_nocase (s ++ r) t ≡ false → contains_nocase s t ≡ false
  unfolding contains_nocase
  contains_nocase_left [] r h = not_empty
  contains_nocase_left (x ∷ s) r h =
      ground (arith, starts_with_nocase-append (x ∷ s) r t, contains_nocase_left s r)

  contains_nocase_right :
      (s r : Bytes) → contains_nocase (s ++ r) t ≡ false → contains_nocase r t ≡ false
  unfolding contains_nocase
  contains_nocase_right [] r h = h
  contains_nocase_right (x ∷ s) r h = ground (arith, contains_nocase_right s r)

some_authorization : starts_with_nocase [] authorization ≡ false
unfolding starts_with_nocase
some_authorization = refl

record Cut (l : Bytes) : Type 0 where
  behind : Bytes
  is : c_string l ++ behind ≡ l

c_string-Cut : (l : Bytes) → Cut l
unfolding c_string
c_string-Cut [] = record { behind = []; is = refl }
c_string-Cut (x ∷ l) = elim (Bool-cases (x == 0)) [
  | inl e ↦ record { behind = x ∷ l; is = rw e }
  | inr e ↦
      let c : Cut l = c_string-Cut l in record { behind = c.behind; is = rw e (ap (◌∷◌ x) c.is) }
]

header_line-credentials :
    (req : Request) (l : Bytes)
    → req.credentials ≡ none
    → contains_nocase l authorization ≡ false
    → (header_line req (c_string l)).credentials ≡ none
unfolding header_line
header_line-credentials req l h k =
    let c : Cut l = c_string-Cut l in
    let none_here : contains_nocase (c_string l) authorization ≡ false =
      contains_nocase_left authorization some_authorization (c_string l) c.behind
        (subst (λ t. contains_nocase t authorization ≡ false) (sym c.is) k) in
    ground arith

-- No line of such a header sets the credentials.
header_text-credentials :
    (n : ℕ) (req req' : Request) (s : Bytes)
    → req.credentials ≡ none
    → contains_nocase s authorization ≡ false
    → header_text n req s ≡ some req'
    → req'.credentials ≡ none
unfolding header_text
header_text-credentials zero req req' s h k e = cc
header_text-credentials (suc n) req req' s h k e = elim (Option-cases (first_line line_size [] s)) [
  | inl x ↦ ground arith
  | inr (cut, x) ↦
      let l : Bytes = cut.0 in
      let whole : l ++ cut.1 ≡ s = first_line-append line_size [] s l cut.1 x in
      let k' : contains_nocase (l ++ cut.1) authorization ≡ false = rw whole k in
      let now =
        header_line-credentials req l h
          (contains_nocase_left authorization some_authorization l cut.1 k') in
      elim (Bool-cases (is_last l)) [
        | inl last ↦ ground (arith, now)
        | inr more ↦
            header_text-credentials n (header_line req (c_string l)) req' cut.1 now
              (contains_nocase_right authorization some_authorization l cut.1 k') (ground arith)
      ]
]

finish_refuses :
    (cfg : Config) (p : Plugins) (req : Request) (suffixed : Bool) (n : ℤ) (w : Bytes)
    → cfg.credentials ≡ some w
    → req.credentials ≡ none
    → all is_refusal (finish cfg p req suffixed n) ≡ true
unfolding finish is_admitted
finish_refuses cfg p req suffixed n w h k = rw (h, k)

all-append :
    (acts more : List Action)
    → all is_refusal acts ≡ true
    → all is_refusal more ≡ true
    → all is_refusal (acts ++ more) ≡ true
all-append [] more h k = k
all-append (a ∷ acts) more h k = ground (arith, all-append acts more)

request_text_refuses :
    (b : Build) (cfg : Config) (p : Plugins) (buffer : Bytes) (r : Parsed) (s w : Bytes)
    → HasShape b r
    → cfg.credentials ≡ some w
    → contains_nocase s authorization ≡ false
    → all is_refusal (request_text cfg p buffer r s) ≡ true
unfolding request_text header_text first_line
request_text_refuses b cfg p buffer (rejected code message) s w shape h k = refl
request_text_refuses b cfg p buffer (parsed req suffixed acts) s w shape h k =
    elim (Option-cases (header_text (suc (length s)) req s)) [
      | inl e ↦ rw e shape.shape.0
      | inr (req', e) ↦ rw e (
          all-append acts _ shape.shape.0 (
            finish_refuses cfg p req' suffixed _ w h
              (header_text-credentials (suc (length s)) req req' s shape.shape.4 k e)))
    ]

client_text_refuses :
    (b : Build) (cfg : Config) (p : Plugins) (cheater : Bool) (s w : Bytes)
    → cfg.credentials ≡ some w
    → contains_nocase s authorization ≡ false
    → all is_refusal (client_text b cfg p cheater s) ≡ true
unfolding client_text
client_text_refuses b cfg p cheater s w h k = elim (Option-cases (first_line line_size [] s)) [
  | inl e ↦ rw (e, client_text)
  | inr (cut, e) ↦
      let whole : cut.0 ++ cut.1 ≡ s = first_line-append line_size [] s cut.0 cut.1 e in
      rw (e, client_text)
        (request_text_refuses b cfg p (c_string cut.0) (classify b cheater (c_string cut.0)) cut.1 w
          (classify-Shape b cheater (c_string cut.0)) h
          (contains_nocase_right authorization some_authorization cut.0 cut.1 (rw whole k)))
]

-- A server with a password does nothing but refuse, with error messages, a client whose text does
-- not hold `Authorization: Basic ` in any case of the letters: no frame, file, command or list of
-- plugins is served to it, whatever else it sends and however the network cuts it into packets.
pub no_password_is_refused :
    (b : Build) (cfg : Config) (p : Plugins) (cheater : Bool) (es : List Event) (w : Bytes)
    → cfg.credentials ≡ some w
    → All Fits es
    → contains_nocase (text init_iobuffer es) authorization ≡ false
    → all is_refusal (actions (client_thread b cfg p cheater es)) ≡ true
no_password_is_refused b cfg p cheater es w h f k =
    rw (client_thread_refines b cfg p cheater es f)
      (client_text_refuses b cfg p cheater (text init_iobuffer es) w h k)
