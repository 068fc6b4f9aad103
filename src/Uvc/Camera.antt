-- ===== src/Uvc/Camera.antt =====
-- plugins/input_uvc/v4l2uvc.c, `uvcGrab`, and plugins/input_uvc/input_uvc.c, the loop of `cam_thread`.
pub mod Spacing
use robotica_movel.Prelude.{
  ℕ, zero, suc, ◌+◌, ◌-◌, ◌*◌, ◌/◌, ◌%◌, ◌^◌, Bool, true, false, not, ◌&&◌, ◌||◌, List, [], ◌∷◌,
  ◌++◌, Option, none, some, ltb, leb, ◌==◌, if◌then◌else◌, Bytes, length, take, drop,
}
use robotica_movel.Jpeg.{Format}
use robotica_movel.Uvc.Huffman.{memcpy_picture}

pub data StreamingState : Type 0 where
  streaming_off : StreamingState
  streaming_on : StreamingState
  streaming_paused : StreamingState

-- Motion JPEG and JPEG, the four formats of jpeg_utils.c, and the others.
pub data PixelFormat : Type 0 where
  jpeg : PixelFormat
  raw : Format → PixelFormat
  unknown : PixelFormat

abbrev pub Timeval : Type 0
Timeval = ℕ × ℕ

-- The fields of `struct vdIn` that change; `tmpbuffer` and `framebuffer` are whole blocks of memory, and
-- `wild` tells whether a `memcpy` has gone over the end of one.
pub record Camera : Type 0 where
  pub streaming : StreamingState
  pub format : PixelFormat
  pub framesize : ℕ
  pub tmpbuffer : Bytes
  pub framebuffer : Bytes
  pub tmpbytesused : ℕ
  pub tmptimestamp : Timeval
  pub wild : Bool

-- What the calls of `uvcGrab` report: STREAMON, the picture of DQBUF with its time, and QBUF.
pub record Grab : Type 0 where
  pub enables : Bool
  pub dequeued : Option (Bytes × Timeval)
  pub requeues : Bool

-- `memcpy` of `source` to the front of `target`
abbrev pub overlay : Bytes → Bytes → Bytes
overlay source target = source ++ drop (length source) target

unfoldable pub take_frame : PixelFormat → Bytes → Timeval → Camera → Option Camera
take_frame jpeg bytes t vd = some (
    if leb (length bytes) 175 then vd else record vd {
      tmpbuffer = overlay bytes vd.tmpbuffer;
      tmpbytesused = length bytes;
      tmptimestamp = t;
      wild = vd.wild || ltb (length vd.tmpbuffer) (length bytes);
    })
take_frame (raw f) bytes t vd = some (record vd {
  framebuffer = overlay (take vd.framesize bytes) vd.framebuffer;
  tmpbytesused = length bytes;
  tmptimestamp = t;
})
take_frame unknown bytes t vd = none

-- The picture is in; the buffer goes back to the driver.
abbrev pub requeue : Bool → Option Camera → Camera → Camera × Bool
requeue ok none vd = (vd, false)
requeue ok (some vd') vd = (vd', ok)

unfoldable pub dequeue : Grab → Camera → Option (Bytes × Timeval) → Camera × Bool
dequeue g vd none = (vd, false)
dequeue g vd (some (bytes, t)) = requeue g.requeues (take_frame vd.format bytes t vd) vd

abbrev pub starts : StreamingState → Bool
starts streaming_off = true
starts streaming_on = false
starts streaming_paused = false

-- `uvcGrab`, and whether it returns 0.
unfoldable pub uvc_grab : Grab → Camera → Camera × Bool
uvc_grab g vd =
    if starts vd.streaming
    then (if g.enables
        then dequeue g (record vd { streaming = streaming_on }) g.dequeued
        else (vd, false))
    else dequeue g vd g.dequeued

-- The static variables that the options set, and two fields of `struct vdIn`.
pub record Settings : Type 0 where
  pub every : ℕ
  pub minimum_size : ℕ
  pub want_timestamp : Bool
  pub soft_framedrop : Bool
  pub frame_period_time : ℕ
  pub dv_timings : Bool

-- How `select` returns: interrupted, with an error, after the time-out, or with the sets.
pub data Select : Type 0 where
  interrupted : Select
  fails : Select
  timed_out : Select
  ready : (readable exception : Bool) → Select

-- What a round gets from outside: `select`, the calls of `uvcGrab`, the clock, what
-- `compress_image_to_jpeg` writes, and whether `setResolution` and `video_handle_event` succeed.
pub record Round : Type 0 where
  pub select : Select
  pub grab : Grab
  pub now : Timeval
  pub compressed : Bytes
  pub resolves : Bool
  pub handles : Bool

pub record Picture : Type 0 where
  pub bytes : Bytes
  pub stamp : Timeval

-- What the thread changes: the camera, `every_count`, `pglobal->in[id].timestamp`, and the pictures
-- published, the newest first.
pub record Worker : Type 0 where
  pub camera : Camera
  pub every_count : ℕ
  pub last : Timeval
  pub published : List Picture

-- In milliseconds, an unsigned long of 64 bits.
unfoldable pub milliseconds : Timeval → ℕ
milliseconds (s, us) = (s * 1000 + us / 1000) % 2 ^ 64

-- `current - last`, unsigned
unfoldable pub elapsed : Timeval → Timeval → ℕ
elapsed last current = (milliseconds current + 2 ^ 64 - milliseconds last) % 2 ^ 64

-- The picture for the clients; none where `memcpy_picture` reads behind `tmpbuffer`.
unfoldable pub converted : Round → PixelFormat → Camera → Option Bytes
converted r (raw f) vd = some r.compressed
converted r jpeg vd = memcpy_picture vd.tmpbytesused vd.tmpbuffer
converted r unknown vd = memcpy_picture vd.tmpbytesused vd.tmpbuffer

abbrev pub publish : Timeval → Option Bytes → Worker → Worker
publish t none w = record w { camera = record w.camera { wild = true } }
publish t (some bytes) w = record w {
  last = t;
  published = record { bytes = bytes; stamp = t } ∷ w.published;
}

-- The time stamp of the picture.
abbrev pub stamp_of : Settings → Round → Camera → Timeval
stamp_of cfg r vd = if cfg.want_timestamp then r.now else vd.tmptimestamp

abbrev pub is_early : Settings → Timeval → Timeval → Bool
is_early cfg last t = cfg.soft_framedrop && ltb (elapsed last t) cfg.frame_period_time

unfoldable pub stamped : Settings → Round → Timeval → Worker → Worker
stamped cfg r t w =
    let w' = record w { camera = record w.camera { tmptimestamp = t } } in
    if is_early cfg w.last t then w' else publish t (converted r w.camera.format w.camera) w'

-- Behind a grab that has succeeded: the frames that are dropped, and the one that is published.
unfoldable pub grabbed : Settings → Round → Worker → Worker
grabbed cfg r w =
    if ltb w.every_count (cfg.every - 1)
    then record w { every_count = suc w.every_count }
    else (if ltb w.camera.tmpbytesused cfg.minimum_size
        then record w { every_count = 0 }
        else stamped cfg r (stamp_of cfg r w.camera) (record w { every_count = 0 }))

-- `other_select_handlers`, and whether the loop goes on.
abbrev pub handle_others : Settings → Round → Bool → Worker → Worker × Bool
handle_others cfg r exception w = (w, not (cfg.dv_timings && exception) || r.handles)

unfoldable pub on_grab : Settings → Round → Bool → Worker → Camera × Bool → Worker × Bool
on_grab cfg r exception w (vd, false) = (record w { camera = vd }, false)
on_grab cfg r exception w (vd, true) =
    handle_others cfg r exception (grabbed cfg r (record w { camera = vd }))

unfoldable pub on_select : Settings → Round → Worker → Select → Worker × Bool
on_select cfg r w interrupted = (w, true)
on_select cfg r w fails = (w, false)
on_select cfg r w timed_out = (w, cfg.dv_timings && r.resolves)
on_select cfg r w (ready readable exception) =
    if readable
    then on_grab cfg r exception w (uvc_grab r.grab w.camera)
    else handle_others cfg r exception w

unfoldable pub go_on : (Worker → Worker) → Worker × Bool → Worker
go_on rest (w, true) = rest w
go_on rest (w, false) = w

-- The loop over the rounds before `stop` is set.
unfoldable pub cam_loop : Settings → List Round → Worker → Worker
cam_loop cfg [] w = w
cam_loop cfg (r ∷ rs) w = go_on (cam_loop cfg rs) (on_select cfg r w r.select)
