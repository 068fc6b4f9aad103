-- ===== src/Jpeg/Tests.antt =====
-- Runs of the pixel conversion, and its theorems at concrete inputs.
use robotica_movel.Jpeg.Destination.{Destination, empty_output_buffer, with_byte}
use robotica_movel.Prelude.{ℕ, leb, if◌then◌else◌, ◌<◌, List, [], ◌∷◌, ◌≡◌, refl, arith, All}
use robotica_movel.Jpeg.{yuyv, uyvy, rgb565, rgb, image_lines}
use robotica_movel.Jpeg.Pixels.{
  Group, yuyv_bytes, uyvy_bytes, rgb_bytes, joined, image_lines_convert, rgb_lem,
}

abbrev black_and_red : List Group
black_and_red =
    record { luma_first = 0; luma_second = 76; cb = 85; cr = 255 }
    ∷ record { luma_first = 200; luma_second = 90; cb = 128; cr = 128 }
    ∷ []

-- One pixel of full red, green and blue in RGB565.
white : image_lines rgb565 1 1 (255 ∷ 255 ∷ []) ≡ (248 ∷ 252 ∷ 248 ∷ []) ∷ []
unfolding image_lines
white = refl

red : rgb 76 85 255 ≡ 254 ∷ 0 ∷ 0 ∷ []
unfolding rgb
red = refl

-- Four lines of one pixel.
image_lines_convert_example :
    (joined (image_lines yuyv 1 4 (yuyv_bytes black_and_red)) ≡ rgb_bytes black_and_red)
    × (joined (image_lines uyvy 1 4 (uyvy_bytes black_and_red)) ≡ rgb_bytes black_and_red)
image_lines_convert_example = image_lines_convert 1 4 black_and_red refl

rgb_lem_example : (rgb 76 128 128 ≡ 76 ∷ 76 ∷ 76 ∷ []) × All (λ c. c < 256) (rgb 76 85 255)
rgb_lem_example = rgb_lem 76 85 255 (omega arith)

-- An encoder as libjpeg documents it.
abbrev encoder : Destination → ℕ → Destination
encoder dest c =
    if leb dest.free_in_buffer 1 then empty_output_buffer (with_byte dest c) else with_byte dest c
