-- ===== src/Uvc/Commands.antt =====
-- plugins/input_uvc/input_uvc.c, `input_cmd`, and plugins/input_uvc/v4l2uvc.c, `v4l2SetControl`.
pub mod Outcome
use robotica_movel.Prelude.{
  ℕ, zero, suc, ◌+◌, Bool, true, false, not, ◌&&◌, ◌||◌, List, [], ◌∷◌, Option, none, some, ◌==◌,
  if◌then◌else◌,
}
use robotica_movel.Prelude.Int.{ℤ, pos, negsuc, ltb_ℤ, leb_ℤ}

pub data Group : Type 0 where
  generic : Group
  v4l2 : Group
  resolution : Group
  jpeg_quality : Group
  other : Group

abbrev pub is_generic : Group → Bool
is_generic generic = true
is_generic _ = false

-- An entry of `in_parameters`; `is_user` tells whether its class is V4L2_CTRL_CLASS_USER.
pub record Control : Type 0 where
  pub id : ℕ
  pub group : Group
  pub is_user : Bool
  pub minimum : ℤ
  pub maximum : ℤ
  pub value : ℤ

-- What the calls report: VIDIOC_S_CTRL, VIDIOC_S_EXT_CTRLS, `setResolution`, and whether VIDIOC_S_JPEGCOMP
-- gives anything but EINVAL.
pub record Calls : Type 0 where
  pub sets : Bool
  pub sets_extended : Bool
  pub resolves : Bool
  pub compresses : Bool

-- The fields of `struct _input` that a command reads or changes; `wild` tells whether the table of the
-- resolutions was read before its front.
pub record Device : Type 0 where
  pub controls : List Control
  pub resolution_count : ℤ
  pub current_resolution : ℤ
  pub quality : ℤ
  pub wild : Bool

-- The place of the first control with an id.
unfoldable pub find_control : ℕ → ℕ → List Control → Option (ℕ × Control)
find_control id i [] = none
find_control id i (c ∷ cs) =
    let rest = find_control id (suc i) cs in if c.id == id then some (i, c) else rest

-- `in_parameters[i].value = value`
unfoldable pub set_value : ℕ → ℤ → List Control → List Control
set_value i value [] = []
set_value zero value (c ∷ cs) = record c { value = value } ∷ cs
set_value (suc i) value (c ∷ cs) = c ∷ set_value i value cs

abbrev pub is_in_range : Control → ℤ → Bool
is_in_range c value = leb_ℤ c.minimum value && leb_ℤ value c.maximum

unfoldable pub set_found : Calls → ℤ → List Control → Option (ℕ × Control) → List Control × Bool
set_found calls value cs none = (cs, false)
set_found calls value cs (some (i, c)) =
    if c.is_user
    then (if is_in_range c value
        then (if calls.sets then (set_value i value cs, true) else (cs, false))
        else (cs, true))
    else (cs, calls.sets_extended)

-- `v4l2SetControl`: the controls, and whether it returns 0.
unfoldable pub v4l2_set_control : Calls → ℕ → ℤ → List Control → List Control × Bool
v4l2_set_control calls id value cs = set_found calls value cs (find_control id 0 cs)

-- Behind `v4l2SetControl`: `i` is 0.
abbrev pub stored_first : ℤ → List Control × Bool → List Control × Bool
stored_first value (cs, true) = (set_value 0 value cs, true)
stored_first value (cs, false) = (cs, false)

unfoldable pub has_generic : ℕ → List Control → Bool
has_generic id [] = false
has_generic id (c ∷ cs) = (c.id == id && is_generic c.group) || has_generic id cs

abbrev pub with_controls : Device → List Control × Bool → Device × Bool
with_controls d (cs, ok) = (record d { controls = cs }, ok)

abbrev pub resized : ℤ → Bool → Device → Device × Bool
resized value true d = (record d { current_resolution = value }, true)
resized value false d = (d, false)

-- `value > resolutionCount - 1` is refused, a negative value is not.
unfoldable pub set_resolution : Calls → ℤ → Device → Device × Bool
set_resolution calls value d =
    if leb_ℤ d.resolution_count value
    then (d, false)
    else resized value calls.resolves (record d { wild = d.wild || ltb_ℤ value (pos 0) })

unfoldable pub set_quality : Calls → ℤ → Device → Device × Bool
set_quality calls value d =
    if leb_ℤ (pos 0) value && leb_ℤ value (pos 100)
    then (record d { quality = value }, calls.compresses)
    else (d, false)

-- `input_cmd`, and whether it returns 0.
unfoldable pub input_cmd : Calls → ℕ → Group → ℤ → Device → Device × Bool
input_cmd calls id generic value d = (d, has_generic id d.controls)
input_cmd calls id v4l2 value d =
    with_controls d (stored_first value (v4l2_set_control calls id value d.controls))
input_cmd calls id resolution value d = set_resolution calls value d
input_cmd calls id jpeg_quality value d = set_quality calls value d
input_cmd calls id other value d = (d, false)
