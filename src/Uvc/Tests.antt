-- ===== src/Uvc/Tests.antt =====
-- Runs of the camera plugin, and the theorems at them.
use robotica_movel.Prelude.{
  Option, codes, ℕ, ◌+◌, ◌*◌, ◌≡◌, ◌⊎◌, refl, true, false, List, [], ◌∷◌, ◌++◌, some, arith, Bytes,
  length, replicate, length-replicate,
}
use robotica_movel.Prelude.Int.{ℤ, pos, negsuc}
use robotica_movel.Jpeg.{Format}
use robotica_movel.Uvc.Huffman.{dht_data, memcpy_picture}
use robotica_movel.Uvc.Huffman.Insert.{IsCopy, memcpy_picture-IsCopy}
use robotica_movel.Uvc.Camera.{
  streaming_off, raw, Camera, Settings, ready, Round, Worker, milliseconds, elapsed, take_frame,
  dequeue, uvc_grab, converted, stamped, grabbed, on_grab, on_select, go_on, cam_loop,
}
use robotica_movel.Uvc.Camera.Spacing.{AreSpaced, published-AreSpaced}
use robotica_movel.CString.{str_eq, to_lower}
use robotica_movel.CString.Number.{
  strtol_int, skip_space, read_signed, clamp_int, read_digits, is_digit, is_space, negate,
}
use robotica_movel.CString.Scan.{scan_int, scan_any, as_int, scan_signed, scan_digits, after_digits}
use robotica_movel.GetOpt.{Parsed, option, switch, parse_options}
use robotica_movel.Uvc.Options.{
  Options, init_options, option_cases, option_int, option_int_auto, find_word, strcasecmp_eq,
  at_least, input_options,
}
use robotica_movel.Uvc.Options.Valid.{IsValid, input_options-IsValid}
use robotica_movel.Uvc.Startup.{vflip, hue_auto, hue, requests}
use robotica_movel.Uvc.Commands.{
  Control, Calls, Device, generic, v4l2, find_control, set_value, set_found, v4l2_set_control,
  input_cmd,
}
use robotica_movel.Uvc.Commands.Outcome.{FirstHas, AreKept, input_cmd-HasOutcome}

-- The length that the segment of the tables tells is that of its bytes behind the marker.
dht_data_run : length dht_data ≡ 2 + (1 * 256 + 162)
unfolding dht_data
dht_data_run = refl

abbrev small_picture : Bytes
small_picture = 255 ∷ 216 ∷ 255 ∷ 192 ∷ 7 ∷ []

memcpy_picture-IsCopy_example :
    (out : Bytes) × (memcpy_picture 5 (small_picture ++ replicate 2051 0) ≡ some out)
    × IsCopy small_picture (replicate 2051 0) out
memcpy_picture-IsCopy_example =
    memcpy_picture-IsCopy small_picture (replicate 2051 0)
      (omega (arith, length-replicate {A = ℕ} 2051 0))

abbrev camera : Camera
camera = record {
  streaming = streaming_off;
  format = raw Format.yuyv;
  framesize = 2;
  tmpbuffer = [];
  framebuffer = 0 ∷ 0 ∷ [];
  tmpbytesused = 0;
  tmptimestamp = (0, 0);
  wild = false;
}

-- A frame each 40 milliseconds.
abbrev at_time : ℕ → Round
at_time us = record {
  select = ready true false;
  grab = record { enables = true; dequeued = some (1 ∷ 2 ∷ [], (1, us)); requeues = true };
  now = (0, 0);
  compressed = us ∷ [];
  resolves = false;
  handles = false;
}

abbrev limited : Settings
limited = record {
  every = 1;
  minimum_size = 0;
  want_timestamp = false;
  soft_framedrop = true;
  frame_period_time = 100;
  dv_timings = false;
}

abbrev quiet : Worker
quiet = record { camera = camera; every_count = 0; last = (0, 0); published = [] }

abbrev five_rounds : List Round
five_rounds = at_time 0 ∷ at_time 40000 ∷ at_time 80000 ∷ at_time 120000 ∷ at_time 160000 ∷ []

cam_loop_run :
    (cam_loop limited five_rounds quiet).published
    ≡ record { bytes = 120000 ∷ []; stamp = (1, 120000) }
      ∷ record { bytes = 0 ∷ []; stamp = (1, 0) }
      ∷ []
unfolding milliseconds elapsed take_frame dequeue uvc_grab converted stamped grabbed on_grab
    on_select go_on cam_loop
cam_loop_run = refl

published-AreSpaced_example : AreSpaced 100 (0, 0) (cam_loop limited five_rounds quiet).published
published-AreSpaced_example = published-AreSpaced limited five_rounds quiet refl refl

abbrev control : ℕ → ℤ → Control
control id value = record {
  id = id;
  group = generic;
  is_user = true;
  minimum = pos 0;
  maximum = pos 9;
  value = value;
}

abbrev device : Device
device = record {
  controls = control 1 (pos 4) ∷ control 2 (pos 5) ∷ [];
  resolution_count = pos 0;
  current_resolution = negsuc 0;
  quality = pos 80;
  wild = false;
}

abbrev all_work : Calls
all_work = record { sets = true; sets_extended = true; resolves = true; compresses = true }

-- The second control is set, and the value of the first goes with it.
input_cmd_run :
    (input_cmd all_work 2 v4l2 (pos 7) device).0.controls
    ≡ control 1 (pos 7) ∷ control 2 (pos 7) ∷ []
unfolding input_cmd v4l2_set_control find_control set_found set_value
input_cmd_run = refl

input_cmd-HasOutcome_example :
    (((input_cmd all_work 2 v4l2 (pos 7) device).1 ≡ false)
      × ((input_cmd all_work 2 v4l2 (pos 7) device).0.controls ≡ device.controls))
    ⊎ (((input_cmd all_work 2 v4l2 (pos 7) device).1 ≡ true)
        × FirstHas (pos 7) (input_cmd all_work 2 v4l2 (pos 7) device).0.controls
        × AreKept 2 device.controls (input_cmd all_work 2 v4l2 (pos 7) device).0.controls)
input_cmd-HasOutcome_example = input_cmd-HasOutcome all_work 2 (pos 7) device

abbrev same_path : Bytes → Option Bytes
same_path s = some s

abbrev parsed : List Parsed
parsed =
    option 12 (codes "300")
    ∷ option 24 (codes "0")
    ∷ option 35 (codes "50HZ")
    ∷ option 38 (codes "7")
    ∷ []

abbrev parsed_options : Options
parsed_options = record init_options {
  quality = record { is_set = true; auto = pos 0; value = pos 100 };
  every = 1;
  pl = record { is_set = true; auto = pos 0; value = pos 1 };
  cb = record { is_set = true; auto = pos 0; value = pos 7 };
}

input_options-IsValid_example : IsValid parsed_options
unfolding input_options option_cases switch parse_options option_int option_int_auto at_least
    strtol_int skip_space read_signed clamp_int read_digits is_digit is_space negate scan_int
    scan_any as_int scan_signed scan_digits after_digits find_word strcasecmp_eq str_eq to_lower
input_options-IsValid_example = input_options-IsValid (λ z. z) same_path parsed parsed_options refl

-- The power line filter goes to the vertical flip, and the value of the color balance is not sent.
requests_run : requests parsed_options ≡ (vflip, pos 1) ∷ (hue_auto, pos 0) ∷ (hue, pos 0) ∷ []
unfolding requests
requests_run = refl
