-- ===== src/Http/Client/Range.antt =====
-- The plugin numbers that `client_thread` passes on, in a build without WXP_COMPAT.
use robotica_movel.Prelude.{
  ℕ, ◌^◌, ◌<◌, Bool, true, false, not, ◌&&◌, ◌||◌, List, [], ◌∷◌, Option, none, some, ◌≡◌, refl,
  sym, arith, ltb, ◌==◌, Bool-cases, Option-cases, inl, inr, if◌then◌else◌, Bytes, length, take,
  drop, All,
}
use mathlib.Core.Path.{subst}
use robotica_movel.Prelude.Int.{ℤ, pos, negsuc, ltb_ℤ}
use robotica_movel.CString.{strchr}
use robotica_movel.CString.Number.{strtol_int}
use robotica_movel.Http.Reader.{Event}
use robotica_movel.Http.Types.{
  Build, Config, Plugins, Answer, unknown, snapshot, snapshot_wxp, stream, stream_wxp, command,
  file, take_file, input_json, output_json, Request, Action, error, fine, send_snapshot,
  send_stream, send_stream_wxp, send_input_json, send_output_json,
}
use robotica_movel.Http.Client.RequestLine.{parsed, input_number, suffix_number, is_wxp}
use robotica_movel.Http.Client.Reply.{plugin_count, answer, finish}
use robotica_movel.Http.Client.{client_thread}
use robotica_movel.CString.Number.{is_space, read_signed, clamp_int}
use robotica_movel.Http.Client.RequestLine.Shape.{HasShape, is_refusal, needs_suffix}
use robotica_movel.Http.Client.Text.{actions}
use robotica_movel.Http.Client.Run.{Keeps}
use robotica_movel.Http.Client.Safe.{All-actions, finish-All, take_answer-All}

-- `n` is the index of one of `count` plugins.
abbrev pub IsIndex : ℕ → ℤ → Type 0
IsIndex count (pos k) = k < count
IsIndex count (negsuc k) = ⊥

abbrev pub IsInRange : Plugins → Action → Type 0
IsInRange p (send_snapshot n) = IsIndex p.incnt n
IsInRange p (send_stream n) = IsIndex p.incnt n
IsInRange p (send_stream_wxp n) = IsIndex p.incnt n
IsInRange p (send_input_json n) = IsIndex p.incnt n
IsInRange p (send_output_json n) = IsIndex (length p.out_names) n
IsInRange p _ = Unit

refusal-IsInRange : (p : Plugins) (a : Action) → is_refusal a ≡ true → IsInRange p a
refusal-IsInRange p (error code message) e = tt
refusal-IsInRange p fine e = tt
refusal-IsInRange p (send_snapshot n) e = cc
refusal-IsInRange p (send_stream n) e = cc
refusal-IsInRange p (send_stream_wxp n) e = cc
refusal-IsInRange p (send_input_json n) e = cc
refusal-IsInRange p (send_output_json n) e = cc
refusal-IsInRange p _ e = tt

record IsPos (z : ℤ) : Type 0 where
  value : ℕ
  is : z ≡ pos value

if_IsPos : (c : Bool) (x y : ℤ) → IsPos x → IsPos y → IsPos (if c then x else y)
if_IsPos true x y hx hy = hx
if_IsPos false x y hx hy = hy

abbrev of_pos : (k : ℕ) → IsPos (pos k)
of_pos k = record { value = k; is = refl }

clamp_int-IsPos : {z : ℤ} → IsPos z → IsPos (clamp_int z)
unfolding clamp_int
clamp_int-IsPos h = rw h.is (if_IsPos (ltb h.value (2 ^ 31)) _ _ (of_pos _) (of_pos _))

read_signed_one : (c : ℕ) → IsPos (read_signed (c ∷ []))
unfolding read_signed
read_signed_one c =
    if_IsPos (c == b'-') _ _ (of_pos 0) (if_IsPos (c == b'+') _ _ (of_pos _) (of_pos _))

-- `atoi` of one character is no negative number: a sign alone reads as 0.
strtol_int_one : (s : Bytes) → IsPos (strtol_int (take 1 s))
unfolding strtol_int
strtol_int_one [] = clamp_int-IsPos (of_pos 0)
strtol_int_one (c ∷ s) = elim (Bool-cases (is_space c)) [
  | inl e ↦ rw e (clamp_int-IsPos (of_pos 0))
  | inr e ↦ rw e (clamp_int-IsPos (read_signed_one c))
]

suffix_number-IsPos : (t : Answer) (o : Option Bytes) → is_wxp t ≡ false → IsPos (suffix_number t o)
unfolding suffix_number
suffix_number-IsPos t none h = of_pos 0
suffix_number-IsPos t (some sch) h = rw h (strtol_int_one (drop 1 sch))

input_number-IsPos :
    (t : Answer) (suffixed : Bool) (buffer : Bytes)
    → is_wxp t ≡ false
    → IsPos (input_number t suffixed buffer)
unfolding input_number
input_number-IsPos t suffixed buffer h =
    if_IsPos suffixed _ _ (suffix_number-IsPos t (strchr buffer b'_') h) (of_pos 0)

answer-IsInRange :
    (cfg : Config) (p : Plugins) (req : Request) (n : ℤ) (t : Answer)
    → (needs_suffix t ≡ true → IsIndex (plugin_count p t) n)
    → All (IsInRange p) (answer cfg p req n t)
unfolding answer plugin_count
answer-IsInRange cfg p req n snapshot h = (h refl, tt)
answer-IsInRange cfg p req n snapshot_wxp h = (h refl, tt)
answer-IsInRange cfg p req n stream h = (h refl, tt)
answer-IsInRange cfg p req n stream_wxp h = (h refl, tt)
answer-IsInRange cfg p req n input_json h = (h refl, tt)
answer-IsInRange cfg p req n output_json h = (h refl, tt)
answer-IsInRange cfg p req n take_file h =
    take_answer-All (IsInRange p) (refusal-IsInRange p) cfg p req.parameter n (h refl)
      (λ i name. tt)
answer-IsInRange cfg p req n file h = elim (Option-cases cfg.www_folder) [
  | inl e ↦ rw e (tt, tt)
  | inr (folder, e) ↦ rw e (tt, tt)
]
answer-IsInRange cfg p req n command h = elim (Bool-cases cfg.nocommands) [
  | inl e ↦ rw e (tt, tt)
  | inr e ↦ rw e (tt, tt)
]
answer-IsInRange cfg p req n unknown h = tt
answer-IsInRange cfg p req n _ h = (tt, tt)

-- The test behind the header makes a number that is not negative an index.
IsIndex-of_test :
    (count : ℕ) (n : ℤ) (suffixed needs : Bool)
    → IsPos n
    → (suffixed || not needs) ≡ true
    → (suffixed && not (ltb_ℤ n (pos count))) ≡ false
    → needs ≡ true
    → IsIndex count n
IsIndex-of_test count (pos k) suffixed needs h a b c = ground arith
IsIndex-of_test count (negsuc k) suffixed needs h a b c = cc (h.is)

-- In a build without WXP_COMPAT, the plugin number of every call of `send_snapshot`, `send_stream`,
-- `send_stream_wxp`, `send_input_JSON` and `send_output_JSON` is the index of a loaded plugin,
-- whatever the client sends.
pub plugin_numbers-IsInRange :
    (b : Build) (cfg : Config) (p : Plugins) (cheater : Bool) (es : List Event)
    → b.wxp_compat ≡ false
    → All (IsInRange p) (actions (client_thread b cfg p cheater es))
plugin_numbers-IsInRange b cfg p cheater es plain =
    All-actions b cfg p cheater (IsInRange p) (refusal-IsInRange p) in_finish es
  where
    in_finish :
        (req req' : Request) (suffixed : Bool) (acts : List Action) (buffer : Bytes)
        → HasShape b (parsed req suffixed acts)
        → Keeps req req'
        → All (IsInRange p) (finish cfg p req' suffixed (input_number req.type suffixed buffer))
    in_finish req req' suffixed acts buffer s k =
        finish-All (IsInRange p) (refusal-IsInRange p) cfg p req' suffixed _ (λ inside.
          answer-IsInRange cfg p req' _ req'.type (λ needs.
            IsIndex-of_test (plugin_count p req'.type) _ suffixed (needs_suffix req'.type)
              (input_number-IsPos req.type suffixed buffer not_wxp)
              (subst (λ t. (suffixed || not (needs_suffix t)) ≡ true) (sym k.type_is) s.shape.1)
              inside needs))
      where
        not_wxp : is_wxp req.type ≡ false
        not_wxp = ground (arith, s.shape.2)
