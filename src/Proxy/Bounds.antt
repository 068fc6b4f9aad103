-- ===== src/Proxy/Bounds.antt =====
-- The buffer of `extract_data` of plugins/input_http/mjpg-proxy.c is never overrun.
use robotica_movel.Prelude.{
  ℕ, suc, ◌+◌, ◌==◌, refl, ap, ◌∙◌, ◌-◌, ◌≤◌, Bool, false, List, [], ◌∷◌, ◌++◌, ◌≡◌, arith, leb,
  Bool-cases, inl, inr, All, All-append, Bytes, length, length-append,
}
use robotica_movel.Prelude.Int.{ℤ, pos, negsuc, ◌-ℤ◌, -ℤ_parts, pos_part, neg_part}
use robotica_movel.Proxy.{
  SearchPattern, char_at, boundary_text, pattern_compare, pattern_matches, Part, content, header,
  Extractor, buffer_size, Image, header_byte, content_byte, step_in, extract_data,
}

-- The bytes in the buffer leave its last place free, and the pattern is the boundary.
abbrev pub Fits : Extractor → Type 0
Fits st = (length st.buffer ≤ buffer_size - 1) × (st.boundary.string ≡ boundary_text)

-- The length that is handed out is the number of bytes less the 20 of the boundary and a line end, and
-- negative where there are fewer.
abbrev pub LengthFits : ℤ → ℕ → Type 0
LengthFits (pos n) size = n + 22 ≡ size
LengthFits (negsuc n) size = size + suc n ≡ 22

abbrev pub ImageFits : Image → Type 0
ImageFits i = (length i.data' ≤ buffer_size - 1) × LengthFits i.length' (length i.data')

-- A state and pictures that fit.
pub record AllFit (r : Extractor × List Image) : Type 0 where
  pub state_fits : Fits r.0
  pub images_fit : All ImageFits r.1

header_byte-Fits :
    (char_signed : Bool) (st : Extractor) (c : ℕ) → Fits st → Fits (header_byte char_signed st c)
unfolding header_byte
header_byte-Fits char_signed st c h = ground (arith, h.0, h.1)

-- A byte more, where the code finds room.
grown :
    (buffer : Bytes) (c : ℕ)
    → leb (buffer_size - 1) (length buffer) ≡ false
    → length (buffer ++ c ∷ []) ≤ buffer_size - 1
grown buffer c room = grind (arith, length-append buffer (c ∷ []))

pattern_compare-string : (p : SearchPattern) (c : ℕ) → (pattern_compare p c).string ≡ p.string
unfolding pattern_compare
pattern_compare-string p c = elim (Bool-cases (char_at p.string p.current == c)) [
  | inl e ↦ rw e refl
  | inr e ↦ rw e refl
]

length_fits : (z : ℤ) (size : ℕ) → z ≡ pos size -ℤ pos 22 → LengthFits z size
length_fits (pos n) size e =
    omega (arith, -ℤ_parts (pos size) (pos 22), ap pos_part e, ap neg_part e)
length_fits (negsuc n) size e =
    omega (arith, -ℤ_parts (pos size) (pos 22), ap pos_part e, ap neg_part e)

content_byte-AllFit : (st : Extractor) (c : ℕ) → Fits st → AllFit (content_byte st c)
unfolding content_byte
content_byte-AllFit st c h = elim (Bool-cases (leb (buffer_size - 1) (length st.buffer))) [
  | inl full ↦ rw full record { state_fits = h; images_fit = tt }
  | inr room ↦ rw room (elim (Bool-cases (pattern_matches (pattern_compare st.boundary c))) [
    | inl done ↦ rw done record {
      state_fits = (omega arith, refl);
      images_fit = (
        (
          grown st.buffer c room,
          length_fits _ (length (st.buffer ++ c ∷ []))
              (ap (λ (s : Bytes). pos (length (st.buffer ++ c ∷ [])) -ℤ pos (length s + 2)) h.1),
        ),
        tt,
      );
    }
    | inr more ↦ rw more record {
      state_fits = (grown st.buffer c room, pattern_compare-string st.boundary c ∙ h.1);
      images_fit = tt;
    }
  ])
]

step_in-AllFit :
    (part : Part) (char_signed : Bool) (st : Extractor) (c : ℕ)
    → Fits st
    → AllFit (step_in part char_signed st c)
unfolding step_in
step_in-AllFit header char_signed st c h = record {
  state_fits = header_byte-Fits char_signed st c h;
  images_fit = tt;
}
step_in-AllFit content char_signed st c h = content_byte-AllFit st c h

-- Whatever bytes arrive, `extract_data` started on a buffer with a free place never writes outside
-- it: it leaves a free place again, and the length of each picture that it hands out is the number of
-- bytes in the buffer less 22, so that the picture lies in the buffer, but where the boundary completes
-- on fewer than 22 bytes: there the length is negative.
pub extract_data-AllFit :
    (char_signed : Bool) (st : Extractor) (cs : Bytes)
    → Fits st
    → AllFit (extract_data char_signed st cs)
unfolding extract_data
extract_data-AllFit char_signed st [] h = record { state_fits = h; images_fit = tt }
extract_data-AllFit char_signed st (c ∷ cs) h =
    let now = step_in-AllFit st.part char_signed st c h in
    let later =
      extract_data-AllFit char_signed (step_in st.part char_signed st c).0 cs now.state_fits in
    record {
      state_fits = later.state_fits;
      images_fit = All-append ImageFits _ _ now.images_fit later.images_fit;
    }
