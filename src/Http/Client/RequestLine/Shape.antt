-- ===== src/Http/Client/RequestLine/Shape.antt =====
-- What the request line can ask for: the facts that every branch of `classify` ensures.
use robotica_movel.Prelude.{
  ℕ, zero, suc, Bool, true, false, not, ◌==◌, ◌&&◌, ◌||◌, [], ◌∷◌, Option, none, some, ◌≡◌, refl,
  arith, Bool-cases, inl, inr, if◌then◌else◌, Bytes, codes, take, drop, all,
}
use robotica_movel.CString.{contains, span}
use robotica_movel.CString.Laws.{all-span, all-elem, is_alphanumeric}
use robotica_movel.Http.Types.{
  Build, Answer, snapshot, snapshot_wxp, stream, stream_wxp, command, file, cgi, take_file,
  input_json, output_json, program_json, clients_json, init_request, Action, error, fine,
}
use robotica_movel.Http.Client.RequestLine.{
  Parsed, parsed, rejected, classify, is_wxp, managed, unescaped, action_request, file_request,
  accepted, file_chars,
}

-- The answers that are about one plugin.
abbrev pub needs_suffix : Answer → Bool
needs_suffix snapshot = true
needs_suffix snapshot_wxp = true
needs_suffix stream = true
needs_suffix stream_wxp = true
needs_suffix input_json = true
needs_suffix output_json = true
needs_suffix take_file = true
needs_suffix _ = false

-- `fine`, or an error message.
abbrev pub is_refusal : Action → Bool
is_refusal (error code message) = true
is_refusal fine = true
is_refusal _ = false

-- A letter, a digit, `.`, `_` or `-`.
abbrev pub is_plain : ℕ → Bool
is_plain c = is_alphanumeric c || (c == 46 || (c == 95 || c == 45))

-- The name of a file that is asked for holds such bytes alone.
abbrev pub IsPlainName : Option Bytes → Type 0
IsPlainName none = Unit
IsPlainName (some name) = all is_plain name ≡ true

abbrev pub asks_for_file : Answer → Bool
asks_for_file file = true
asks_for_file cgi = true
asks_for_file _ = false

-- What the branches ensure, with `b` the build options.
abbrev pub Shape : Build → Parsed → Type 0
Shape b (rejected code message) = Unit
Shape b (parsed req suffixed acts) =
    (all is_refusal acts ≡ true)
    × ((suffixed || not (needs_suffix req.type)) ≡ true)
    × ((b.wxp_compat || not (is_wxp req.type)) ≡ true)
    × (asks_for_file req.type ≡ true → IsPlainName req.parameter)
    × (req.credentials ≡ none)

-- The same as a record, which shows what it is about.
pub record HasShape (b : Build) (r : Parsed) : Type 0 where
  pub shape : Shape b r

if_shape :
    (b : Build) (c : Bool) (x y : Parsed)
    → HasShape b x
    → HasShape b y
    → HasShape b (if c then x else y)
if_shape b true x y hx hy = hx
if_shape b false x y hx hy = hy

wxp_shape :
    (b : Build) (wxp c : Bool) (x y : Parsed)
    → ((wxp || false) ≡ true → HasShape b x)
    → HasShape b y
    → HasShape b (if wxp && c then x else y)
wxp_shape b true c x y hx hy = if_shape b c x y (hx refl) hy
wxp_shape b false c x y hx hy = hy

all-take : (p : ℕ → Bool) (n : ℕ) (s : Bytes) → all p s ≡ true → all p (take n s) ≡ true
all-take p zero s h = refl
all-take p (suc n) [] h = refl
all-take p (suc n) (x ∷ s) h = ground (arith, all-take p n s)

accepted-IsPlainName : (pb : Bytes) → IsPlainName (some (accepted pb file_chars))
unfolding accepted
accepted-IsPlainName pb =
    all-take is_plain 100 (span pb file_chars)
      (all-elem is_plain file_chars (span pb file_chars) refl (all-span pb file_chars))

or_true : (x : Bool) → (x || true) ≡ true
or_true x = ground arith

managed-Shape :
    (b : Build) (cheater : Bool) (t : Answer)
    → asks_for_file t ≡ false
    → (b.wxp_compat || not (is_wxp t)) ≡ true
    → HasShape b (managed b cheater t)
unfolding managed is_wxp
managed-Shape b cheater t h w = elim (Bool-cases (b.managment && cheater)) [
  | inl e ↦ rw e (record { shape = (refl, refl, rw (or_true b.wxp_compat), λ x. cc, refl) })
  | inr e ↦ rw e (record { shape = (refl, refl, w, λ x. cc, refl) })
]

unescaped-Shape :
    (b : Build) (t : Answer) (suffixed : Bool) (o : Option Bytes)
    → (suffixed || not (needs_suffix t)) ≡ true
    → is_wxp t ≡ false
    → asks_for_file t ≡ false
    → HasShape b (unescaped t suffixed o)
unfolding unescaped
unescaped-Shape b t suffixed none hs hw hf = record { shape = tt }
unescaped-Shape b t suffixed (some buf) hs hw hf = record {
  shape = (refl, hs, rw hw (or_true b.wxp_compat), λ x. cc, refl);
}

action_request-Shape :
    (b : Build) (t : Answer) (suffixed : Bool) (prefix : Bytes) (found : Option Bytes)
    → (suffixed || not (needs_suffix t)) ≡ true
    → is_wxp t ≡ false
    → asks_for_file t ≡ false
    → HasShape b (action_request t suffixed prefix found)
unfolding action_request
action_request-Shape b t suffixed prefix none hs hw hf = record { shape = tt }
action_request-Shape b t suffixed prefix (some found) hs hw hf =
    unescaped-Shape b t suffixed _ hs hw hf

plain-Shape :
    (b : Build) (t : Answer) (suffixed : Bool)
    → (suffixed || not (needs_suffix t)) ≡ true
    → is_wxp t ≡ false
    → asks_for_file t ≡ false
    → HasShape b (parsed (record init_request { type = t }) suffixed [])
plain-Shape b t suffixed hs hw hf = record {
  shape = (refl, hs, rw hw (or_true b.wxp_compat), λ x. cc, refl);
}

file_request-Shape : (b : Build) (found : Option Bytes) → HasShape b (file_request found)
unfolding file_request is_wxp
file_request-Shape b none = record { shape = tt }
file_request-Shape b (some found) =
    if_shape b (contains (drop 5 found) (codes ".cgi")) _ _
      (record {
        shape = (refl, refl, or_true b.wxp_compat, λ _. accepted-IsPlainName (drop 5 found), refl);
      })
      (record {
        shape = (refl, refl, or_true b.wxp_compat, λ _. accepted-IsPlainName (drop 5 found), refl);
      })

pub classify-Shape :
    (b : Build) (cheater : Bool) (buffer : Bytes) → HasShape b (classify b cheater buffer)
unfolding classify is_wxp
classify-Shape b cheater buffer =
    if_shape b _ _ _ (managed-Shape b cheater snapshot refl (or_true b.wxp_compat)) (
      wxp_shape b b.wxp_compat _ _ _ (managed-Shape b cheater snapshot_wxp refl) (
        if_shape b _ _ _ (managed-Shape b cheater stream refl (or_true b.wxp_compat)) (
          if_shape b _ _ _ (managed-Shape b cheater stream refl (or_true b.wxp_compat)) (
            wxp_shape b b.wxp_compat _ _ _ (managed-Shape b cheater stream_wxp refl) (
              if_shape b _ _ _ (action_request-Shape b take_file true _ _ refl refl refl) (
                if_shape b _ _ _ (plain-Shape b input_json true refl refl refl) (
                  if_shape b _ _ _ (plain-Shape b output_json true refl refl refl) (
                    if_shape b _ _ _ (plain-Shape b program_json false refl refl refl) (
                      if_shape b _ _ _ (plain-Shape b clients_json false refl refl refl) (
                        if_shape b _ _ _ (action_request-Shape b command false _ _ refl refl refl)
                          (file_request-Shape b _)))))))))))
