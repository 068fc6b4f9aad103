-- ===== src/Http/Client/Safe.antt =====
-- What a client cannot make `client_thread` do.
use robotica_movel.Prelude.{
  ℕ, Bool, true, false, not, ◌&&◌, List, [], ◌∷◌, Option, none, some, ◌≡◌, refl, sym, ap, ◌∙◌,
  arith, Bool-cases, Option-cases, inl, inr, Bytes, All, all, All-append,
}
use mathlib.Core.Path.{subst}
use robotica_movel.Prelude.Int.{ℤ, pos, ltb_ℤ}
use robotica_movel.Http.Reader.{Event}
use robotica_movel.Http.Types.{
  Build, Config, Plugins, Answer, unknown, command, file, cgi, take_file, output_json, Request,
  Action, error, fine, send_snapshot, send_file, execute_cgi, take_to_file,
}
use robotica_movel.Http.Client.RequestLine.{parsed, input_number}
use robotica_movel.Http.Client.Reply.{
  is_admitted, plugin_count, out_of_range, is_zero, filename_of, find_file_plugin, take_found,
  take_named, take_answer, answer, finish,
}
use robotica_movel.Http.Client.{client_thread}
use robotica_movel.Http.Client.RequestLine.Shape.{HasShape, is_refusal, IsPlainName, asks_for_file}
use robotica_movel.Http.Client.Text.{actions}
use robotica_movel.Http.Client.Run.{Keeps, thread_run}

All-refusals :
    (P : Action → Type 0) (acts : List Action)
    → ((a : Action) → is_refusal a ≡ true → P a)
    → all is_refusal acts ≡ true
    → All P acts
All-refusals P [] h e = tt
All-refusals P (a ∷ as') h e = (h a (ground arith), All-refusals P as' h (ground arith))

-- A property of the single actions, shown of refusals and of the answers.
module _ (b : Build) (cfg : Config) (p : Plugins) (cheater : Bool) (P : Action → Type 0)
    (of_refusal : (a : Action) → is_refusal a ≡ true → P a)
    (of_finish : (req req' : Request) (suffixed : Bool) (acts : List Action) (buffer : Bytes)
      → HasShape b (parsed req suffixed acts)
      → Keeps req req'
      → All P (finish cfg p req' suffixed (input_number req.type suffixed buffer))) where
  pub All-actions : (es : List Event) → All P (actions (client_thread b cfg p cheater es))
  All-actions =
      thread_run b cfg p cheater (All P) tt
        (λ code message. (of_refusal (error code message) refl, tt))
        (λ req suffixed acts s. All-refusals P acts of_refusal s.shape.0)
        (λ req req' suffixed acts buffer s k.
          All-append P acts _ (All-refusals P acts of_refusal s.shape.0)
            (of_finish req req' suffixed acts buffer s k))

module _ (P : Action → Type 0) (of_refusal : (a : Action) → is_refusal a ≡ true → P a)
    (cfg : Config) (p : Plugins) where
  pub finish-All :
      (req : Request) (suffixed : Bool) (n : ℤ)
      → ((suffixed && not (ltb_ℤ n (pos (plugin_count p req.type)))) ≡ false
          → All P (answer cfg p req n req.type))
      → All P (finish cfg p req suffixed n)
  unfolding finish
  finish-All req suffixed n h = elim (Bool-cases (is_admitted cfg.credentials req.credentials)) [
    | inr e ↦ rw e (of_refusal _ refl, tt)
    | inl e ↦ rw e (elim (Bool-cases (suffixed && not (ltb_ℤ n (pos (plugin_count p req.type))))) [
      | inr inside ↦ rw inside (h inside)
      | inl outside ↦ rw outside (unfold answer in (of_range req.type, tt))
    ])
  ]
    where
      of_range : (t : Answer) → P (out_of_range t)
      of_range output_json = of_refusal _ refl
      of_range t = of_refusal _ refl

  pub take_answer-All :
      (parameter : Option Bytes) (n : ℤ)
      → P (send_snapshot n)
      → ((i : ℕ) (name : Bytes) → P (take_to_file i name))
      → All P (take_answer p parameter n)
  unfolding take_answer
  take_answer-All parameter n h k = found (find_file_plugin 0 p.out_names)
    where
      named : (i : ℕ) (o : Option Bytes) → All P (take_named p n i o)
      named i none = (of_refusal _ refl, (h, tt))
      named i (some name) = elim (Bool-cases (is_zero (p.take_cmd i name))) [
        | inl z ↦ rw z (k i name, (h, tt))
        | inr z ↦ rw z (k i name, (of_refusal _ refl, tt))
      ]

      found : (o : Option ℕ) → All P (take_found p parameter n o)
      found none = (of_refusal _ refl, tt)
      found (some i) = named i (filename_of parameter)

-- The files that are asked for have plain names.
abbrev pub HasPlainName : Action → Type 0
HasPlainName (send_file name) = IsPlainName name
HasPlainName (execute_cgi name query) = IsPlainName name
HasPlainName _ = Unit

refusal-HasPlainName : (a : Action) → is_refusal a ≡ true → HasPlainName a
refusal-HasPlainName (error code message) e = tt
refusal-HasPlainName fine e = tt
refusal-HasPlainName (send_file name) e = cc
refusal-HasPlainName (execute_cgi name query) e = cc
refusal-HasPlainName _ e = tt

answer-HasPlainName :
    (cfg : Config) (p : Plugins) (req : Request) (n : ℤ) (t : Answer)
    → (asks_for_file t ≡ true → IsPlainName req.parameter)
    → All HasPlainName (answer cfg p req n t)
unfolding answer
answer-HasPlainName cfg p req n file h = elim (Option-cases cfg.www_folder) [
  | inl e ↦ rw e (tt, tt)
  | inr (folder, e) ↦ rw e (h refl, tt)
]
answer-HasPlainName cfg p req n cgi h = (h refl, tt)
answer-HasPlainName cfg p req n unknown h = tt
answer-HasPlainName cfg p req n take_file h =
    take_answer-All HasPlainName refusal-HasPlainName cfg p req.parameter n tt (λ i name. tt)
answer-HasPlainName cfg p req n command h = elim (Bool-cases cfg.nocommands) [
  | inl e ↦ rw e (tt, tt)
  | inr e ↦ rw e (tt, tt)
]
answer-HasPlainName cfg p req n _ h = (tt, tt)

-- Whatever the client sends, the name of each file or script that it is served holds letters,
-- digits, `.`, `_` and `-` alone, and so no path separator.
pub file_names_are_plain :
    (b : Build) (cfg : Config) (p : Plugins) (cheater : Bool) (es : List Event)
    → All HasPlainName (actions (client_thread b cfg p cheater es))
file_names_are_plain b cfg p cheater =
    All-actions b cfg p cheater HasPlainName refusal-HasPlainName
      (λ req req' suffixed acts buffer s k.
        finish-All HasPlainName refusal-HasPlainName cfg p req' suffixed _ (λ _.
          answer-HasPlainName cfg p req' _ req'.type (λ e.
            subst IsPlainName (sym k.parameter_is)
              (s.shape.3 (ap asks_for_file (sym k.type_is) ∙ e)))))
