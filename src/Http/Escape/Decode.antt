-- ===== src/Http/Escape/Decode.antt =====
-- Percent decoding of a text, the specification of `unescape`.
use robotica_movel.Prelude.{
  ℕ, ◌+◌, ◌*◌, false, [], ◌∷◌, ◌++◌, true, refl, Option, none, some, ◌≡◌, ◌∙◌, ◌==◌, if◌then◌else◌,
  Bytes, append_assoc,
}
use robotica_movel.Http.Escape.{hex_char_to_int}
use robotica_movel.Http.Escape.Digits.{hex_value, hex_char_to_int_lem}

abbrev pub prepend : ℕ → Option Bytes → Option Bytes
prepend c none = none
prepend c (some s) = some (c ∷ s)

abbrev pub escaped : Option ℕ → Option ℕ → Option Bytes → Option Bytes
escaped (some hi) (some lo) rest = prepend (hi * 16 + lo) rest
escaped _ _ rest = none

-- The specification: percent decoding, `none` at an escape that is cut off or lacks a hex digit.
unfoldable pub decode : Bytes → Option Bytes
decode [] = some []
decode (c ∷ []) = if c == b'%' then none else some (c ∷ [])
decode (c ∷ d ∷ []) = let rest = decode (d ∷ []) in if c == b'%' then none else prepend c rest
decode (c ∷ h ∷ l ∷ cs) =
    let plain = decode (h ∷ l ∷ cs) in
    let rest = decode cs in
    if c == b'%' then escaped (hex_value h) (hex_value l) rest else prepend c plain

-- How the loop ends on `rest`, when `done` is written.
abbrev pub Ends : Option Bytes → Bytes → Option Bytes → Type 0
Ends none done r = r ≡ none
Ends (some d) done r = (tail : Bytes) × (r ≡ some (done ++ (d ++ 0 ∷ tail)))

pub ends-prepend :
    (o : Option Bytes) (done : Bytes) (c : ℕ) (r : Option Bytes)
    → Ends o (done ++ c ∷ []) r
    → Ends (prepend c o) done r
ends-prepend none done c r h = h
ends-prepend (some d) done c r (tail, e) = (tail, e ∙ rw append_assoc)

pub decode-plain :
    (c : ℕ) (cs : Bytes) → (c == b'%') ≡ false → decode (c ∷ cs) ≡ prepend c (decode cs)
unfolding decode
decode-plain c [] e = rw e
decode-plain c (d ∷ []) e = rw e
decode-plain c (d ∷ f ∷ cs) e = rw e

pub decode-escape :
    (c h l : ℕ) (cs : Bytes)
    → (c == b'%') ≡ true
    → decode (c ∷ h ∷ l ∷ cs) ≡ escaped (hex_char_to_int h) (hex_char_to_int l) (decode cs)
unfolding decode
decode-escape c h l cs e = rw (e, hex_char_to_int_lem h, hex_char_to_int_lem l) refl
