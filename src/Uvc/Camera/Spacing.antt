-- ===== src/Uvc/Camera/Spacing.antt =====
-- plugins/input_uvc/input_uvc.c: the frames that the software rate limit lets through.
use robotica_movel.Prelude.{
  ℕ, suc, ◌-◌, ◌≤◌, ◌≡◌, refl, sym, ap, Bool, true, false, List, [], ◌∷◌, Option, none, some, ltb,
  Bytes, arith, if_cases, inl, inr, Bool-cases, if_true, if_false,
}
use mathlib.Core.Path.{subst}
use robotica_movel.Uvc.Camera.{
  Timeval, Camera, Settings, Select, interrupted, fails, timed_out, ready, Round, Picture, Worker,
  elapsed, publish, stamp_of, is_early, stamped, grabbed, on_grab, on_select, uvc_grab, go_on,
  cam_loop,
}

-- Each picture is at least `period` milliseconds after the one before, the first after `start`.
abbrev pub AreSpaced : ℕ → Timeval → List Picture → Type 0
AreSpaced period start [] = Unit
AreSpaced period start (p ∷ []) = period ≤ elapsed start p.stamp
AreSpaced period start (p ∷ q ∷ ps) =
    (period ≤ elapsed q.stamp p.stamp) × AreSpaced period start (q ∷ ps)

-- `last` is the time of the newest picture.
abbrev newest : Timeval → List Picture → Timeval
newest start [] = start
newest start (p ∷ ps) = p.stamp

module _ (cfg : Settings) (limits : cfg.soft_framedrop ≡ true) (start : Timeval) where
  abbrev IsSpaced : Worker → Type 0
  IsSpaced w =
      (w.last ≡ newest start w.published) × AreSpaced cfg.frame_period_time start w.published

  AreSpaced-cons :
      (p : Picture) (ps : List Picture)
      → cfg.frame_period_time ≤ elapsed (newest start ps) p.stamp
      → AreSpaced cfg.frame_period_time start ps
      → AreSpaced cfg.frame_period_time start (p ∷ ps)
  AreSpaced-cons p [] h rest = h
  AreSpaced-cons p (q ∷ ps) h rest = (h, rest)

  publish-IsSpaced :
      (t : Timeval) (o : Option Bytes) (w : Worker)
      → cfg.frame_period_time ≤ elapsed w.last t
      → IsSpaced w
      → IsSpaced (publish t o w)
  publish-IsSpaced t none w h k = k
  publish-IsSpaced t (some bytes) w h (last, spaced) = (
    refl,
    AreSpaced-cons (record { bytes = bytes; stamp = t }) w.published
        (subst (λ s. cfg.frame_period_time ≤ elapsed s t) last h) spaced,
  )

  not_early :
      (last t : Timeval) → is_early cfg last t ≡ false → cfg.frame_period_time ≤ elapsed last t
  not_early last t h = ground (arith, limits)

  stamped-IsSpaced :
      (r : Round) (t : Timeval) (w : Worker) → IsSpaced w → IsSpaced (stamped cfg r t w)
  unfolding stamped
  stamped-IsSpaced r t w k = elim (Bool-cases (is_early cfg w.last t)) [
    | inl e ↦ subst IsSpaced (sym (if_true _ _ e)) k
    | inr e ↦ subst IsSpaced (sym (if_false _ _ e)) (
        publish-IsSpaced t _ (record w { camera = record w.camera { tmptimestamp = t } })
          (not_early w.last t e) k)
  ]

  grabbed-IsSpaced : (r : Round) (w : Worker) → IsSpaced w → IsSpaced (grabbed cfg r w)
  unfolding grabbed
  grabbed-IsSpaced r w k =
      if_cases IsSpaced (ltb w.every_count (cfg.every - 1))
        (record w { every_count = suc w.every_count }) _ k
        (if_cases IsSpaced (ltb w.camera.tmpbytesused cfg.minimum_size)
          (record w { every_count = 0 }) _ k
          (stamped-IsSpaced r (stamp_of cfg r w.camera) (record w { every_count = 0 }) k))

  on_grab-IsSpaced :
      (r : Round) (e : Bool) (w : Worker) (o : Camera × Bool)
      → IsSpaced w
      → IsSpaced (on_grab cfg r e w o).0
  unfolding on_grab
  on_grab-IsSpaced r e w (vd, false) k = k
  on_grab-IsSpaced r e w (vd, true) k = grabbed-IsSpaced r (record w { camera = vd }) k

  on_select-IsSpaced :
      (r : Round) (w : Worker) (s : Select) → IsSpaced w → IsSpaced (on_select cfg r w s).0
  unfolding on_select
  on_select-IsSpaced r w interrupted k = k
  on_select-IsSpaced r w fails k = k
  on_select-IsSpaced r w timed_out k = k
  on_select-IsSpaced r w (ready true e) k = on_grab-IsSpaced r e w (uvc_grab r.grab w.camera) k
  on_select-IsSpaced r w (ready false e) k = k

  cam_loop-IsSpaced : (rs : List Round) (w : Worker) → IsSpaced w → IsSpaced (cam_loop cfg rs w)
  unfolding cam_loop go_on
  cam_loop-IsSpaced [] w k = k
  cam_loop-IsSpaced (r ∷ rs) w k =
      go (on_select cfg r w r.select) (on_select-IsSpaced r w r.select k)
        (λ w' h. cam_loop-IsSpaced rs w' h)
    where
      go :
          (o : Worker × Bool)
          → IsSpaced o.0
          → ((w' : Worker) → IsSpaced w' → IsSpaced (cam_loop cfg rs w'))
          → IsSpaced (go_on (cam_loop cfg rs) o)
      go (w', true) h rest = rest w' h
      go (w', false) h rest = h

-- With the software rate limit on, whatever the camera, the clock and the calls report, from any state
-- with no picture published: each picture that cam_thread publishes is at least the frame period after
-- the one before it, and the first after the time stamp at the start, as differences of 64-bit
-- milliseconds.
pub published-AreSpaced :
    (cfg : Settings) (rs : List Round) (w : Worker)
    → cfg.soft_framedrop ≡ true
    → w.published ≡ []
    → AreSpaced cfg.frame_period_time w.last (cam_loop cfg rs w).published
published-AreSpaced cfg rs w limits none_yet =
    (cam_loop-IsSpaced cfg limits w.last rs w (
      sym (ap (newest w.last) none_yet),
      subst (AreSpaced cfg.frame_period_time w.last) (sym none_yet) tt,
    )).1
