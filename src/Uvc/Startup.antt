-- ===== src/Uvc/Startup.antt =====
-- plugins/input_uvc/input_uvc.c: what `cam_thread` sets before its loop.
use robotica_movel.Prelude.{ℕ, zero, suc, ◌/◌, Bool, true, List, [], ◌∷◌, ◌++◌, if◌then◌else◌}
use robotica_movel.Prelude.Int.{ℤ, pos, negsuc, eqb_ℤ}
use robotica_movel.Uvc.Options.{Knob, Options, exposure_manual}

-- The controls V4L2_CID_...
pub data Cid : Type 0 where
  sharpness : Cid
  contrast : Cid
  saturation : Cid
  backlight_compensation : Cid
  rotate : Cid
  hflip : Cid
  vflip : Cid
  autobrightness : Cid
  brightness : Cid
  auto_white_balance : Cid
  white_balance_temperature : Cid
  exposure_auto : Cid
  exposure_absolute : Cid
  autogain : Cid
  gain : Cid
  hue_auto : Cid
  hue : Cid

-- A call of `input_cmd` in the V4L2 group: the control and the value. What it returns is printed alone.
abbrev pub Request : Type 0
Request = Cid × ℤ

-- V4L_INT_OPT
abbrev pub int_opt : Cid → Knob → List Request
int_opt cid k = if k.is_set then (cid, k.value) ∷ [] else []

-- A mode, and the value where the mode is `manual`.
abbrev pub mode_opt : Cid → Cid → ℤ → Knob → ℤ → List Request
mode_opt mode cid manual k value =
    if k.is_set
    then (mode, k.auto) ∷ (if eqb_ℤ k.auto manual then (cid, value) ∷ [] else [])
    else []

unfoldable pub requests : Options → List Request
requests o =
    int_opt sharpness o.sh
    ++ int_opt contrast o.co
    ++ int_opt saturation o.sa
    ++ int_opt backlight_compensation o.bk
    ++ int_opt rotate o.rot
    ++ int_opt hflip o.hf
    ++ int_opt vflip o.vf
    ++ int_opt vflip o.pl
    ++ mode_opt autobrightness brightness (pos 0) o.br o.br.value
    ++ mode_opt auto_white_balance white_balance_temperature (pos 0) o.wb o.wb.value
    ++ mode_opt exposure_auto exposure_absolute exposure_manual o.ex o.ex.value
    ++ mode_opt autogain gain (pos 0) o.gain o.gain.value
    ++ mode_opt auto_white_balance white_balance_temperature (pos 0) o.cagc o.cagc.value
    ++ mode_opt hue_auto hue (pos 0) o.cb o.cagc.value

-- `soft_framedrop` and `frame_period_time`, where the option softfps is above 0.
unfoldable pub rate_limit : ℤ → Bool × ℕ → Bool × ℕ
rate_limit (negsuc n) limit = limit
rate_limit (pos zero) limit = limit
rate_limit (pos (suc n)) limit = (true, 1000 / suc n)
