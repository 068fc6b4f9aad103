-- ===== src/Jpeg.antt =====
-- The pixel conversion of `compress_image_to_jpeg` of plugins/input_uvc/jpeg_utils.c: the lines of
-- RGB bytes that it hands to the JPEG library.
pub mod Pixels
pub mod Destination
mod Tests
use robotica_movel.Prelude.{
  ℕ, zero, suc, ◌+◌, ◌-◌, ◌*◌, ◌/◌, ◌%◌, Bool, true, false, List, [], ◌∷◌, ◌++◌, ltb, if◌then◌else◌,
  Bytes, take, drop,
}
use Prim.Native.Nat.{bit_and}
use robotica_movel.Prelude.Int.{ℤ, pos, negsuc, ◌+ℤ◌, ◌-ℤ◌, ◌*ℤ◌}

-- `vd->formatIn`
pub data Format : Type 0 where
  yuyv rgb24 rgb565 uyvy other : Format

-- `yuyv[i]`, for an `i` inside the frame buffer.
unfoldable pub byte_at : Bytes → ℕ → ℕ
byte_at [] i = 0
byte_at (c ∷ s) zero = c
byte_at (c ∷ s) (suc i) = byte_at s i

-- `>> 8` of an `int`, which rounds down.
unfoldable pub shift8 : ℤ → ℤ
shift8 (pos n) = pos (n / 256)
shift8 (negsuc n) = negsuc (n / 256)

-- `(r > 255) ? 255 : ((r < 0) ? 0 : r)`
unfoldable pub clamp_byte : ℤ → ℕ
clamp_byte (pos n) = if ltb 255 n then 255 else n
clamp_byte (negsuc n) = 0

-- The three bytes of a pixel, from its brightness and the two colour bytes.
unfoldable pub rgb : ℕ → ℕ → ℕ → Bytes
unfolding shift8 clamp_byte ◌+ℤ◌ ◌-ℤ◌ ◌*ℤ◌
rgb luma cb cr =
    let y = pos (luma * 256) in
    let u = pos cb -ℤ pos 128 in
    let v = pos cr -ℤ pos 128 in
    clamp_byte (shift8 (y +ℤ pos 359 *ℤ v))
    ∷ clamp_byte (shift8 ((y -ℤ pos 88 *ℤ u) -ℤ pos 183 *ℤ v))
    ∷ clamp_byte (shift8 (y +ℤ pos 454 *ℤ u))
    ∷ []

-- Where the bytes of a pair of pixels stand in its group of four.
pub record Layout : Type 0 where
  pub y_first : ℕ
  pub y_second : ℕ
  pub u_at : ℕ
  pub v_at : ℕ

abbrev pub yuyv_layout : Layout
yuyv_layout = record { y_first = 0; y_second = 2; u_at = 1; v_at = 3 }

abbrev pub uyvy_layout : Layout
uyvy_layout = record { y_first = 1; y_second = 3; u_at = 0; v_at = 2 }

-- `z`, and the pointer `yuyv` as the bytes from it on.
pub record Source : Type 0 where
  pub z : Bool
  pub bytes : Bytes

-- One pixel of a group format.
unfoldable pub group_pixel : Layout → Source → Bytes
unfolding byte_at rgb
group_pixel l s =
    rgb (byte_at s.bytes (if s.z then l.y_second else l.y_first)) (byte_at s.bytes l.u_at)
      (byte_at s.bytes l.v_at)

-- `if(z++) { z = 0; yuyv += 4; }`
unfoldable pub advance : Source → Source
advance s = if s.z then record { z = false; bytes = drop 4 s.bytes } else record s { z = true }

-- `twoByte`, of the RGB565 branch
unfoldable pub rgb565_pixel : Bytes → Bytes
unfolding byte_at
rgb565_pixel s =
    bit_and (byte_at s 1) 248
    ∷ bit_and (byte_at s 1 * 256 + byte_at s 0) 2016 / 8 % 256
    ∷ bit_and (byte_at s 0) 31 * 8
    ∷ []

-- The bytes of the next pixel.
unfoldable pub pixel : Format → Source → Bytes
unfolding group_pixel rgb565_pixel byte_at
pixel yuyv s = group_pixel yuyv_layout s
pixel uyvy s = group_pixel uyvy_layout s
pixel rgb24 s = byte_at s.bytes 0 ∷ byte_at s.bytes 1 ∷ byte_at s.bytes 2 ∷ []
pixel rgb565 s = rgb565_pixel s.bytes
pixel other s = []

unfoldable pub next : Format → Source → Source
unfolding advance
next yuyv s = advance s
next uyvy s = advance s
next rgb24 s = record s { bytes = drop 3 s.bytes }
next rgb565 s = record s { bytes = drop 2 s.bytes }
next other s = s

-- `for(x = 0; x < vd->width; x++)`: the line, and where the source stands behind it.
unfoldable pub line : Format → ℕ → Source → Bytes
unfolding pixel next
line f zero s = []
line f (suc x) s = pixel f s ++ line f x (next f s)

unfoldable pub behind : Format → ℕ → Source → Source
unfolding next
behind f zero s = s
behind f (suc x) s = behind f x (next f s)

-- `while(cinfo.next_scanline < vd->height)`: the lines given to `jpeg_write_scanlines`.
unfoldable pub scanlines : Format → ℕ → ℕ → Source → List Bytes
unfolding line behind
scanlines f width zero s = []
scanlines f width (suc rows) s = line f width s ∷ scanlines f width rows (behind f width s)

-- The lines of an image; a format that none of the branches names gets none.
unfoldable pub image_lines : Format → ℕ → ℕ → Bytes → List Bytes
unfolding scanlines
image_lines other width height frame = []
image_lines f width height frame = scanlines f width height (record { z = false; bytes = frame })
