-- ===== src/Utils.antt =====
-- utils.c: how the input plugins read a resolution.
mod Tests
use robotica_movel.Prelude.{
  ℕ, zero, suc, ◌+◌, ◌≤◌, ◌<◌, ◌^◌, Bool, true, false, ◌&&◌, List, [], ◌∷◌, ◌++◌, Option, none,
  some, ◌≡◌, refl, sym, ap, ◌∙◌, arith, ltb, ◌==◌, if◌then◌else◌, Bytes, codes, length, All,
  append-nil,
}
use robotica_movel.Prelude.Int.{ℤ, pos}
use robotica_movel.CString.{str_eq}
use robotica_movel.CString.Number.{decimal, is_digit}
use robotica_movel.CString.Digits.{IsDigit, decimal-All, decimal_some}
use robotica_movel.CString.Scan.{scan_int, StopsDigits, scan_int-decimal}

-- An entry of `resolutions`.
pub record Named : Type 0 where
  pub string : Bytes
  pub width : ℕ
  pub height : ℕ

abbrev pub resolutions : List Named
resolutions =
    record { string = codes "QQVGA"; width = 160; height = 120 }
    ∷ record { string = codes "QCIF"; width = 176; height = 144 }
    ∷ record { string = codes "CGA"; width = 320; height = 200 }
    ∷ record { string = codes "QVGA"; width = 320; height = 240 }
    ∷ record { string = codes "CIF"; width = 352; height = 288 }
    ∷ record { string = codes "PAL"; width = 720; height = 576 }
    ∷ record { string = codes "VGA"; width = 640; height = 480 }
    ∷ record { string = codes "SVGA"; width = 800; height = 600 }
    ∷ record { string = codes "XGA"; width = 1024; height = 768 }
    ∷ record { string = codes "HD"; width = 1280; height = 720 }
    ∷ record { string = codes "SXGA"; width = 1280; height = 1024 }
    ∷ record { string = codes "UXGA"; width = 1600; height = 1200 }
    ∷ record { string = codes "FHD"; width = 1920; height = 1280 }
    ∷ []

-- The loop over the table.
unfoldable pub find_named : List Named → Bytes → Option Named
find_named [] optarg = none
find_named (r ∷ rs) optarg =
    let rest = find_named rs optarg in if str_eq r.string optarg then some r else rest

-- The two numbers of `sscanf(optarg, "%dx%d", width, height)`, with an `x` between them.
abbrev pub with_height : ℤ → Option (ℤ × Bytes) → Option (ℤ × ℤ)
with_height width none = none
with_height width (some (height, rest)) = some (width, height)

unfoldable pub scan_height : (ℤ → ℤ) → ℤ → Bytes → Option (ℤ × ℤ)
scan_height wide width [] = none
scan_height wide width (c ∷ s) = if c == b'x' then with_height width (scan_int wide s) else none

unfoldable pub with_width : (ℤ → ℤ) → Option (ℤ × Bytes) → Option (ℤ × ℤ)
unfolding scan_height
with_width wide none = none
with_width wide (some (width, rest)) = scan_height wide width rest

-- Both numbers, if `sscanf` gives 2.
unfoldable pub scan_size : (ℤ → ℤ) → Bytes → Option (ℤ × ℤ)
unfolding with_width
scan_size wide optarg = with_width wide (scan_int wide optarg)

abbrev pub size_or : Option (ℤ × ℤ) → Option Named → Option (ℤ × ℤ)
size_or scanned none = scanned
size_or scanned (some r) = some (pos r.width, pos r.height)

-- `parse_resolution_opt`: the width and the height, or `exit`; `wide` is what `sscanf` stores for a
-- number that an `int` cannot hold.
unfoldable pub parse_resolution_opt : (ℤ → ℤ) → Bytes → Option (ℤ × ℤ)
unfolding find_named scan_size
parse_resolution_opt wide optarg = size_or (scan_size wide optarg) (find_named resolutions optarg)

-- A text that starts with a letter.
abbrev StartsHigh : Bytes → Type 0
StartsHigh [] = ⊥
StartsHigh (c ∷ s) = 58 ≤ c

find_named-none :
    (rs : List Named) (c : ℕ) (s : Bytes)
    → All (λ r. StartsHigh r.string) rs
    → c ≤ 57
    → find_named rs (c ∷ s) ≡ none
unfolding find_named
find_named-none [] c s h k = refl
find_named-none (r ∷ rs) c s h k = rw (differs r.string h.0, find_named-none rs c s h.1 k) refl
  where
    differs : (t : Bytes) → StartsHigh t → str_eq t (c ∷ s) ≡ false
    differs [] g = absurd g
    differs (d ∷ t) g = unfold str_eq in ground (arith, g, k)

letters : All (λ r. StartsHigh r.string) resolutions
letters = (
  omega arith,
  (
    omega arith,
    (
      omega arith,
      (
        omega arith,
        (
          omega arith,
          (
            omega arith,
            (
              omega arith,
              (
                omega arith,
                (omega arith, (omega arith, (omega arith, (omega arith, (omega arith, tt))))),
              ),
            ),
          ),
        ),
      ),
    ),
  ),
)

find_named-digits :
    (s t : Bytes) → 0 < length s → All IsDigit s → find_named resolutions (s ++ t) ≡ none
find_named-digits [] t l h = absurd (omega arith)
find_named-digits (c ∷ s) t l h =
    find_named-none resolutions c (s ++ t) letters (omega (arith, h.0))

x_stops : (s : Bytes) → StopsDigits (b'x' ∷ s)
unfolding is_digit
x_stops s = refl

scan_size-decimal :
    (wide : ℤ → ℤ) (w h : ℕ) (t : Bytes)
    → w < 2 ^ 31
    → h < 2 ^ 31
    → StopsDigits t
    → scan_size wide (decimal w ++ (b'x' ∷ (decimal h ++ t))) ≡ some (pos w, pos h)
unfolding scan_size
scan_size-decimal wide w h t wl hl k =
    ap (with_width wide)
      (scan_int-decimal wide w (b'x' ∷ (decimal h ++ t)) wl (x_stops (decimal h ++ t)))
    ∙ ap (with_height (pos w)) (scan_int-decimal wide h t hl k)

-- A width and a height below 2^31 printed with an `x` between them, whatever follows but a digit, are
-- read back by `parse_resolution_opt`: the table of names does not come in between.
pub parse_resolution_opt-decimal :
    (wide : ℤ → ℤ) (w h : ℕ) (t : Bytes)
    → w < 2 ^ 31
    → h < 2 ^ 31
    → StopsDigits t
    → parse_resolution_opt wide (decimal w ++ (b'x' ∷ (decimal h ++ t))) ≡ some (pos w, pos h)
unfolding parse_resolution_opt
parse_resolution_opt-decimal wide w h t wl hl k =
    ap (size_or (scan_size wide (decimal w ++ (b'x' ∷ (decimal h ++ t)))))
      (find_named-digits (decimal w) (b'x' ∷ (decimal h ++ t)) (decimal_some w) (decimal-All w))
    ∙ scan_size-decimal wide w h t wl hl k
