-- ===== src/Jpeg/Pixels.antt =====
-- What the lines of plugins/input_uvc/jpeg_utils.c hold.
use robotica_movel.Prelude.{
  ℕ, zero, suc, ◌+◌, ◌*◌, ◌<◌, false, List, [], ◌∷◌, ◌++◌, ◌≡◌, refl, ap, ◌∙◌, arith, Bytes, length,
  All, append_assoc,
}
use robotica_movel.Prelude.Int.{ℤ, pos, negsuc, ◌+ℤ◌, ◌-ℤ◌, ◌*ℤ◌}
use robotica_movel.Jpeg.{
  Format, yuyv, uyvy, shift8, clamp_byte, rgb, Source, pixel, next, line, behind, scanlines,
  image_lines,
}

-- A pair of pixels as the camera delivers it: two values of brightness that share their colour.
pub record Group : Type 0 where
  pub luma_first : ℕ
  pub luma_second : ℕ
  pub cb : ℕ
  pub cr : ℕ

abbrev pub yuyv_bytes : List Group → Bytes
yuyv_bytes [] = []
yuyv_bytes (g ∷ gs) = g.luma_first ∷ g.cb ∷ g.luma_second ∷ g.cr ∷ yuyv_bytes gs

abbrev pub uyvy_bytes : List Group → Bytes
uyvy_bytes [] = []
uyvy_bytes (g ∷ gs) = g.cb ∷ g.luma_first ∷ g.cr ∷ g.luma_second ∷ uyvy_bytes gs

-- The specification: the pixels of the image, two of each group.
abbrev pub rgb_bytes : List Group → Bytes
rgb_bytes [] = []
rgb_bytes (g ∷ gs) = rgb g.luma_first g.cb g.cr ++ (rgb g.luma_second g.cb g.cr ++ rgb_bytes gs)

-- The bytes of all lines, one behind the other.
abbrev pub joined : List Bytes → Bytes
joined [] = []
joined (l ∷ ls) = l ++ joined ls

same_line : (f : Format) (s : Source) (j k : ℕ) → j ≡ k → line f j s ≡ line f k s
same_line f s j k e = ap (λ k. line f k s) e

clamp_byte_below : (z : ℤ) → clamp_byte z < 256
unfolding clamp_byte
clamp_byte_below (pos n) = ground arith
clamp_byte_below (negsuc n) = omega arith

-- Lines are cut out of one stream of pixels.
line-add :
    (f : Format) (m n : ℕ) (s : Source) → line f m s ++ line f n (behind f m s) ≡ line f (m + n) s
unfolding line behind
line-add f zero n s = same_line f s n _ (omega arith)
line-add f (suc m) n s =
    append_assoc (pixel f s) (line f m (next f s)) (line f n (behind f m (next f s)))
    ∙ (ap (λ t. pixel f s ++ t) (line-add f m n (next f s))
        ∙ same_line f s (suc (m + n)) _ (omega arith))

joined-scanlines :
    (f : Format) (w h : ℕ) (s : Source) → joined (scanlines f w h s) ≡ line f (h * w) s
unfolding scanlines line
joined-scanlines f w zero s = same_line f s 0 _ (omega arith)
joined-scanlines f w (suc h) s =
    ap (λ t. line f w s ++ t) (joined-scanlines f w h (behind f w s))
    ∙ (line-add f w (h * w) s ∙ same_line f s (w + h * w) _ (omega arith))

abbrev at_start : Bytes → Source
at_start frame = record { z = false; bytes = frame }

yuyv_line :
    (gs : List Group) (k : ℕ)
    → k ≡ 2 * length gs
    → line yuyv k (at_start (yuyv_bytes gs)) ≡ rgb_bytes gs
unfolding line pixel next
yuyv_line [] zero e = refl
yuyv_line [] (suc k) e = absurd (omega arith)
yuyv_line (g ∷ gs) zero e = absurd (omega arith)
yuyv_line (g ∷ gs) (suc zero) e = absurd (omega arith)
yuyv_line (g ∷ gs) (suc (suc k)) e =
    ap (λ t. rgb g.luma_first g.cb g.cr ++ (rgb g.luma_second g.cb g.cr ++ t))
      (yuyv_line gs k (omega arith))

uyvy_line :
    (gs : List Group) (k : ℕ)
    → k ≡ 2 * length gs
    → line uyvy k (at_start (uyvy_bytes gs)) ≡ rgb_bytes gs
unfolding line pixel next
uyvy_line [] zero e = refl
uyvy_line [] (suc k) e = absurd (omega arith)
uyvy_line (g ∷ gs) zero e = absurd (omega arith)
uyvy_line (g ∷ gs) (suc zero) e = absurd (omega arith)
uyvy_line (g ∷ gs) (suc (suc k)) e =
    ap (λ t. rgb g.luma_first g.cb g.cr ++ (rgb g.luma_second g.cb g.cr ++ t))
      (uyvy_line gs k (omega arith))

-- For an image of an even number of pixels, of any width, a line of odd width included: from YUYV
-- data and from UYVY data of the same groups, the lines together hold the pixels of the groups, two
-- of each, in order.
pub image_lines_convert :
    (width height : ℕ) (gs : List Group)
    → height * width ≡ 2 * length gs
    → (joined (image_lines yuyv width height (yuyv_bytes gs)) ≡ rgb_bytes gs)
      × (joined (image_lines uyvy width height (uyvy_bytes gs)) ≡ rgb_bytes gs)
unfolding image_lines
image_lines_convert width height gs e = (
  joined-scanlines yuyv width height _ ∙ yuyv_line gs _ e,
  joined-scanlines uyvy width height _ ∙ uyvy_line gs _ e,
)

-- A grey pixel, one with both colour bytes 128, keeps its brightness: three bytes equal to it; and
-- the three bytes of any pixel are bytes.
pub rgb_lem :
    (luma cb cr : ℕ)
    → luma < 256
    → (rgb luma 128 128 ≡ luma ∷ luma ∷ luma ∷ []) × All (λ c. c < 256) (rgb luma cb cr)
unfolding rgb
rgb_lem luma cb cr h = (
  ground arith,
  (
    clamp_byte_below (shift8 (pos (luma * 256) +ℤ pos 359 *ℤ (pos cr -ℤ pos 128))),
    (
      clamp_byte_below (
          shift8
            (pos (luma * 256) -ℤ pos 88 *ℤ (pos cb -ℤ pos 128) -ℤ pos 183 *ℤ (pos cr -ℤ pos 128))),
      (clamp_byte_below (shift8 (pos (luma * 256) +ℤ pos 454 *ℤ (pos cb -ℤ pos 128))), tt),
    ),
  ),
)
