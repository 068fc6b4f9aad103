-- ===== src/Uvc/Options/Valid.antt =====
-- plugins/input_uvc/input_uvc.c: the bounds that the options keep.
use robotica_movel.Prelude.{◌≤◌, ◌≡◌, List, Option, none, some, Bytes, arith}
use mathlib.Core.Path.{subst}
use robotica_movel.Prelude.Int.{ℤ, pos, ◌≤ℤ◌}
use robotica_movel.Utils.{parse_resolution_opt}
use robotica_movel.GetOpt.{Parsed, AllKeep, no_case, ◌▸◌, Holds, parse_options-Holds}
use robotica_movel.Uvc.Options.{
  Knob, Options, init_options, clamped, sized, put, at_least, option_int, option_int_auto,
  option_bool, option_multi, option_multi_or_int, find_word, exposures, exposure_manual, power_line,
  option_cases, input_options,
}

abbrev pub IsPercent : ℤ → Type 0
IsPercent q = (pos 0 ≤ℤ q) × (q ≤ℤ pos 100)

abbrev pub IsValid : Options → Type 0
IsValid o = (1 ≤ o.every) × (1 ≤ o.timeout) × IsPercent o.quality.value

clamped-IsPercent : (k : Knob) → IsPercent (clamped k).value
clamped-IsPercent k = ground arith

one-le-at_least : (a : Bytes) → 1 ≤ at_least 1 a
unfolding at_least
one-le-at_least a = omega arith

put-Holds :
    (f : Knob → Options) (k : Option Knob) → ((x : Knob) → IsValid (f x)) → Holds IsValid (put f k)
put-Holds f none h = tt
put-Holds f (some k) h = h k

sized-Holds : (o : Options) (s : Option (ℤ × ℤ)) → IsValid o → Holds IsValid (sized o s)
sized-Holds o none h = tt
sized-Holds o (some (w, k)) h = h

option_cases-AllKeep :
    (wide : ℤ → ℤ) (realpath : Bytes → Option Bytes) (a : Bytes)
    → AllKeep IsValid (option_cases wide realpath a)
unfolding option_cases
option_cases-AllKeep wide realpath a =
    (λ o h. tt)
    ▸ (λ o h. tt)
    ▸ (λ o h. h)
    ▸ (λ o h. h)
    ▸ (λ o h. sized-Holds o (parse_resolution_opt wide a) h)
    ▸ (λ o h. sized-Holds o (parse_resolution_opt wide a) h)
    ▸ (λ o h. h)
    ▸ (λ o h. h)
    ▸ (λ o h. h)
    ▸ (λ o h. h)
    ▸ (λ o h. h)
    ▸ (λ o h. h)
    ▸ (λ o (e, t, q). put-Holds _ (option_int wide a o.quality) (λ k. (e, t, clamped-IsPercent k)))
    ▸ (λ o (e, t, q). put-Holds _ (option_int wide a o.quality) (λ k. (e, t, clamped-IsPercent k)))
    ▸ (λ o h. h)
    ▸ (λ o h. h)
    ▸ (λ o h. h)
    ▸ (λ o h. h)
    ▸ (λ o h. h)
    ▸ (λ o h. h)
    ▸ (λ o h. h)
    ▸ (λ o h. h)
    ▸ (λ o h. h)
    ▸ (λ o (e, t, q). (one-le-at_least a, t, q))
    ▸ (λ o (e, t, q). (one-le-at_least a, t, q))
    ▸ (λ o h. put-Holds (λ k. record o { sh = k }) (option_int wide a o.sh) (λ k. h))
    ▸ (λ o h. put-Holds (λ k. record o { co = k }) (option_int wide a o.co) (λ k. h))
    ▸ (λ o h. put-Holds (λ k. record o { br = k }) (option_int_auto wide a o.br) (λ k. h))
    ▸ (λ o h. put-Holds (λ k. record o { sa = k }) (option_int wide a o.sa) (λ k. h))
    ▸ (λ o h. put-Holds (λ k. record o { wb = k }) (option_int_auto wide a o.wb) (λ k. h))
    ▸ (λ o h.
        put-Holds (λ k. record o { ex = k })
          (option_multi_or_int wide exposure_manual a o.ex (find_word a exposures)) (λ k. h))
    ▸ (λ o h. put-Holds (λ k. record o { bk = k }) (option_int wide a o.bk) (λ k. h))
    ▸ (λ o h. put-Holds (λ k. record o { rot = k }) (option_int wide a o.rot) (λ k. h))
    ▸ (λ o h. put-Holds (λ k. record o { hf = k }) (option_bool a o.hf) (λ k. h))
    ▸ (λ o h. put-Holds (λ k. record o { vf = k }) (option_bool a o.vf) (λ k. h))
    ▸ (λ o h.
        put-Holds (λ k. record o { pl = k }) (option_multi o.pl (find_word a power_line)) (λ k. h))
    ▸ (λ o h. put-Holds (λ k. record o { gain = k }) (option_int_auto wide a o.gain) (λ k. h))
    ▸ (λ o h. put-Holds (λ k. record o { cagc = k }) (option_int_auto wide a o.cagc) (λ k. h))
    ▸ (λ o h. put-Holds (λ k. record o { cb = k }) (option_int_auto wide a o.cb) (λ k. h))
    ▸ (λ o h. h)
    ▸ (λ o h. h)
    ▸ (λ o (e, t, q). (e, one-le-at_least a, q))
    ▸ (λ o h. h)
    ▸ no_case

-- Whatever the options are: if input_init gets through them, then every and timeout are at least 1, and
-- the quality is from 0 to 100.
pub input_options-IsValid :
    (wide : ℤ → ℤ) (realpath : Bytes → Option Bytes) (ps : List Parsed) (o : Options)
    → input_options wide realpath ps ≡ some o
    → IsValid o
unfolding input_options
input_options-IsValid wide realpath ps o e = subst (Holds IsValid) e (
    parse_options-Holds IsValid (option_cases wide realpath) ps (some init_options)
      (option_cases-AllKeep wide realpath) (omega arith, omega arith, (omega arith, omega arith)))
