-- ===== src/Uvc/Options.antt =====
-- plugins/input_uvc/input_uvc.c, the options of `input_init`, with the macros of utils.h.
pub mod Valid
use robotica_movel.Prelude.{
  ℕ, zero, suc, ◌+◌, Bool, true, false, List, [], ◌∷◌, map, Option, none, some, ◌==◌, if◌then◌else◌,
  Bytes, codes, max,
}
use robotica_movel.Prelude.Int.{ℤ, pos, negsuc, pos_part, ltb_ℤ, eqb_ℤ}
use robotica_movel.CString.{str_eq, to_lower}
use robotica_movel.CString.Number.{strtol_int}
use robotica_movel.CString.Scan.{scan_int}
use robotica_movel.Jpeg.{Format}
use robotica_movel.Utils.{parse_resolution_opt}
use robotica_movel.GetOpt.{Parsed, refuses, parse_options}
use robotica_movel.Uvc.Camera.{PixelFormat, jpeg, raw}

-- The fields `v_set`, `v_auto` and `v` of `context_settings`, for a control `v`.
pub record Knob : Type 0 where
  pub is_set : Bool
  pub auto : ℤ
  pub value : ℤ

pub data Norm : Type 0 where
  unknown_norm : Norm
  pal : Norm
  ntsc : Norm
  secam : Norm

-- The static variables, the locals of `input_init` and the settings. `dev` is missing where
-- `realpath` fails.
pub record Options : Type 0 where
  pub dev : Option Bytes
  pub width : ℤ
  pub height : ℤ
  pub fps : ℤ
  pub format : PixelFormat
  pub quality : Knob
  pub minimum_size : ℕ
  pub dynctrls : Bool
  pub tvnorm : Norm
  pub every : ℕ
  pub sh : Knob
  pub co : Knob
  pub br : Knob
  pub sa : Knob
  pub wb : Knob
  pub ex : Knob
  pub bk : Knob
  pub rot : Knob
  pub hf : Knob
  pub vf : Knob
  pub pl : Knob
  pub gain : Knob
  pub cagc : Knob
  pub cb : Knob
  pub want_timestamp : Bool
  pub softfps : ℤ
  pub timeout : ℕ
  pub dv_timings : Bool

-- `calloc`
abbrev pub no_knob : Knob
no_knob = record { is_set = false; auto = pos 0; value = pos 0 }

abbrev pub init_options : Options
init_options = record {
  dev = some (codes "/dev/video0");
  width = pos 640;
  height = pos 480;
  fps = negsuc 0;
  format = jpeg;
  quality = record { is_set = false; auto = pos 0; value = pos 80 };
  minimum_size = 0;
  dynctrls = true;
  tvnorm = unknown_norm;
  every = 1;
  sh = no_knob;
  co = no_knob;
  br = no_knob;
  sa = no_knob;
  wb = no_knob;
  ex = no_knob;
  bk = no_knob;
  rot = no_knob;
  hf = no_knob;
  vf = no_knob;
  pl = no_knob;
  gain = no_knob;
  cagc = no_knob;
  cb = no_knob;
  want_timestamp = false;
  softfps = negsuc 0;
  timeout = 5;
  dv_timings = false;
}

unfoldable pub strcasecmp_eq : Bytes → Bytes → Bool
strcasecmp_eq s t = str_eq (map to_lower s) (map to_lower t)

-- `sscanf(optarg, "%d", &v)`; none where the program exits.
abbrev pub scanned : Knob → Option (ℤ × Bytes) → Option Knob
scanned k none = none
scanned k (some (v, rest)) = some (record k { is_set = true; value = v })

-- OPTION_INT
unfoldable pub option_int : (ℤ → ℤ) → Bytes → Knob → Option Knob
option_int wide optarg k = scanned k (scan_int wide optarg)

-- OPTION_INT_AUTO
unfoldable pub option_int_auto : (ℤ → ℤ) → Bytes → Knob → Option Knob
option_int_auto wide optarg k =
    if strcasecmp_eq (codes "auto") optarg
    then some (record k { is_set = true; auto = pos 1 })
    else scanned k (scan_int wide optarg)

-- OPTION_BOOL
unfoldable pub option_bool : Bytes → Knob → Option Knob
option_bool optarg k =
    if strcasecmp_eq (codes "true") optarg
    then some (record k { is_set = true; value = pos 1 })
    else (if strcasecmp_eq (codes "false") optarg
        then some (record k { is_set = true; value = pos 0 })
        else none)

unfoldable pub find_word : Bytes → List (Bytes × ℤ) → Option ℤ
find_word optarg [] = none
find_word optarg ((k, v) ∷ table) =
    let rest = find_word optarg table in if strcasecmp_eq k optarg then some v else rest

-- OPTION_MULTI
abbrev pub option_multi : Knob → Option ℤ → Option Knob
option_multi k none = none
option_multi k (some v) = some (record k { is_set = true; value = v })

-- OPTION_MULTI_OR_INT: the word, or the default and a number.
abbrev pub option_multi_or_int : (ℤ → ℤ) → ℤ → Bytes → Knob → Option ℤ → Option Knob
option_multi_or_int wide default optarg k none =
    scanned (record k { auto = default }) (scan_int wide optarg)
option_multi_or_int wide default optarg k (some v) =
    if eqb_ℤ v default
    then scanned (record k { auto = v }) (scan_int wide optarg)
    else some (record k { auto = v; is_set = true })

-- The values of V4L2_EXPOSURE_AUTO, SHUTTER_PRIORITY, APERTURE_PRIORITY and MANUAL.
abbrev pub exposures : List (Bytes × ℤ)
exposures =
    (codes "auto", pos 0)
    ∷ (codes "shutter-priority", pos 2)
    ∷ (codes "aperature-priority", pos 3)
    ∷ []

abbrev pub exposure_manual : ℤ
exposure_manual = pos 1

abbrev pub power_line : List (Bytes × ℤ)
power_line =
    (codes "disabled", pos 0)
    ∷ (codes "50hz", pos 1)
    ∷ (codes "60hz", pos 2)
    ∷ (codes "auto", pos 3)
    ∷ []

-- `MIN(MAX(quality, 0), 100)`
abbrev pub clamped : Knob → Knob
clamped k = record k {
  value =
      if ltb_ℤ k.value (pos 0)
      then pos 0
      else (if ltb_ℤ (pos 100) k.value then pos 100 else k.value);
}

unfoldable pub fourcc : Bytes → PixelFormat → PixelFormat
fourcc optarg format =
    if str_eq optarg (codes "RGB24")
    then raw Format.rgb24
    else (if str_eq optarg (codes "RGBP") then raw Format.rgb565 else format)

unfoldable pub norm : Bytes → Norm → Norm
norm optarg tvnorm =
    if strcasecmp_eq (codes "pal") optarg
    then pal
    else (if strcasecmp_eq (codes "ntsc") optarg
        then ntsc
        else (if strcasecmp_eq (codes "secam") optarg then secam else tvnorm))

abbrev pub sized : Options → Option (ℤ × ℤ) → Option Options
sized o none = none
sized o (some (w, h)) = some (record o { width = w; height = h })

-- The options with a new knob, or the exit.
abbrev pub put : (Knob → Options) → Option Knob → Option Options
put f none = none
put f (some k) = some (f k)

-- `MAX(atoi(optarg), least)`
unfoldable pub at_least : ℕ → Bytes → ℕ
at_least least optarg = max (pos_part (strtol_int optarg)) least

-- The switch, in a build with libjpeg; `realpath` is the C library's, and `wide` what its
-- `sscanf` stores for a number that an `int` cannot hold.
unfoldable pub option_cases :
    (ℤ → ℤ) → (Bytes → Option Bytes) → Bytes → List (Options → Option Options)
option_cases wide realpath a =
    refuses
    ∷ refuses
    ∷ (λ o. some (record o { dev = realpath a }))
    ∷ (λ o. some (record o { dev = realpath a }))
    ∷ (λ o. sized o (parse_resolution_opt wide a))
    ∷ (λ o. sized o (parse_resolution_opt wide a))
    ∷ (λ o. some (record o { fps = strtol_int a }))
    ∷ (λ o. some (record o { fps = strtol_int a }))
    ∷ (λ o. some (record o { format = raw Format.yuyv }))
    ∷ (λ o. some (record o { format = raw Format.yuyv }))
    ∷ (λ o. some (record o { format = raw Format.uyvy }))
    ∷ (λ o. some (record o { format = raw Format.uyvy }))
    ∷ (λ o. put (λ k. record o { quality = clamped k }) (option_int wide a o.quality))
    ∷ (λ o. put (λ k. record o { quality = clamped k }) (option_int wide a o.quality))
    ∷ (λ o. some (record o { minimum_size = at_least 0 a }))
    ∷ (λ o. some (record o { minimum_size = at_least 0 a }))
    ∷ (λ o. some (record o { dynctrls = false }))
    ∷ (λ o. some (record o { dynctrls = false }))
    ∷ some
    ∷ some
    ∷ (λ o. some (record o { format = fourcc a o.format }))
    ∷ (λ o. some (record o { tvnorm = norm a o.tvnorm }))
    ∷ (λ o. some (record o { tvnorm = norm a o.tvnorm }))
    ∷ (λ o. some (record o { every = at_least 1 a }))
    ∷ (λ o. some (record o { every = at_least 1 a }))
    ∷ (λ o. put (λ k. record o { sh = k }) (option_int wide a o.sh))
    ∷ (λ o. put (λ k. record o { co = k }) (option_int wide a o.co))
    ∷ (λ o. put (λ k. record o { br = k }) (option_int_auto wide a o.br))
    ∷ (λ o. put (λ k. record o { sa = k }) (option_int wide a o.sa))
    ∷ (λ o. put (λ k. record o { wb = k }) (option_int_auto wide a o.wb))
    ∷ (λ o.
        put (λ k. record o { ex = k })
          (option_multi_or_int wide exposure_manual a o.ex (find_word a exposures)))
    ∷ (λ o. put (λ k. record o { bk = k }) (option_int wide a o.bk))
    ∷ (λ o. put (λ k. record o { rot = k }) (option_int wide a o.rot))
    ∷ (λ o. put (λ k. record o { hf = k }) (option_bool a o.hf))
    ∷ (λ o. put (λ k. record o { vf = k }) (option_bool a o.vf))
    ∷ (λ o. put (λ k. record o { pl = k }) (option_multi o.pl (find_word a power_line)))
    ∷ (λ o. put (λ k. record o { gain = k }) (option_int_auto wide a o.gain))
    ∷ (λ o. put (λ k. record o { cagc = k }) (option_int_auto wide a o.cagc))
    ∷ (λ o. put (λ k. record o { cb = k }) (option_int_auto wide a o.cb))
    ∷ (λ o. some (record o { want_timestamp = true }))
    ∷ (λ o. some (record o { softfps = strtol_int a }))
    ∷ (λ o. some (record o { timeout = at_least 1 a }))
    ∷ (λ o. some (record o { dv_timings = true }))
    ∷ []

-- The loop of `input_init`; none where it returns 1, or the program exits.
unfoldable pub input_options : (ℤ → ℤ) → (Bytes → Option Bytes) → List Parsed → Option Options
input_options wide realpath ps = parse_options (option_cases wide realpath) ps (some init_options)
