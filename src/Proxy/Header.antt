-- ===== src/Proxy/Header.antt =====
-- The header phase of `extract_data` of plugins/input_http/mjpg-proxy.c: bytes that cannot end a
-- header, and the byte that does.
use robotica_movel.Prelude.{
  ℕ, Bool, true, false, [], ◌∷◌, ◌++◌, ◌≡◌, refl, ap, ◌∙◌, Bytes, Bool-cases, inl, inr,
}
use robotica_movel.Proxy.{
  SearchPattern, pattern_compare, pattern_reset, pattern_matches, header, Extractor, boundary_text,
  is_crlf, is_crlfcrlf, push_byte, header_byte, extract_data,
}
use robotica_movel.Proxy.Window.{
  Window, slide, value, AreBytes, slide-AreBytes, push_byte-value, may_end-is_crlfcrlf,
}
use robotica_movel.Proxy.Picture.{reading}
use robotica_movel.Proxy.Quiet.{quiet, slides, quiet-Quiet}

-- The header phase with an empty buffer.
abbrev pub heading : ℕ → SearchPattern → Extractor
heading w q = record {
  part = header;
  buffer = [];
  last_four_bytes = w;
  contentlength = q;
  boundary = record { string = boundary_text; current = 0 };
}

header_byte-heading :
    (char_signed : Bool) (w : ℕ) (q : SearchPattern) (c : ℕ)
    → is_crlfcrlf (push_byte char_signed w c) ≡ false
    → (q' : SearchPattern) × (header_byte char_signed (heading w q) c
        ≡ heading (push_byte char_signed w c) q')
unfolding header_byte
header_byte-heading char_signed w q c h = elim (Bool-cases (is_crlf (push_byte char_signed w c))) [
  | inl e ↦ (pattern_reset q, rw (h, e) refl)
  | inr e ↦ elim (Bool-cases (pattern_matches (pattern_compare q c))) [
    | inl m ↦ (pattern_reset (pattern_compare q c), rw (h, e, m) refl)
    | inr m ↦ (pattern_compare q c, rw (h, e, m) refl)
  ]
]

header_byte-reading :
    (char_signed : Bool) (w : ℕ) (q : SearchPattern) (c : ℕ)
    → is_crlfcrlf (push_byte char_signed w c) ≡ true
    → header_byte char_signed (heading w q) c ≡ reading (push_byte char_signed w c) q [] 0
unfolding header_byte
header_byte-reading char_signed w q c h = rw h refl

extract-header_byte :
    (char_signed : Bool) (w : ℕ) (q : SearchPattern) (c : ℕ) (s : Bytes) (st : Extractor)
    → header_byte char_signed (heading w q) c ≡ st
    → extract_data char_signed (heading w q) (c ∷ s) ≡ extract_data char_signed st s
unfolding extract_data
extract-header_byte char_signed w q c s st e = ap (λ st'. extract_data char_signed st' s) e

abbrev HeaderStays : Bool → Window → SearchPattern → Bytes → Bytes → Type 0
HeaderStays char_signed w q s rest =
    (q' : SearchPattern) × (extract_data char_signed (heading (value w) q) (s ++ rest)
      ≡ extract_data char_signed (heading (value (slides w s)) q') rest)

-- In the header phase quiet bytes change nothing but the window and the pattern.
pub header_stays :
    (char_signed : Bool) (w : Window) (q : SearchPattern) (s rest : Bytes)
    → AreBytes w
    → quiet w s ≡ true
    → HeaderStays char_signed w q s rest
unfolding slides
header_stays char_signed w q [] rest b h = (q, refl)
header_stays char_signed w q (c ∷ s) rest b h =
    let k = quiet-Quiet w c s h in
    let pushed = push_byte-value char_signed w c b k.ascii in
    let b' = slide-AreBytes w c b k.ascii in
    let no_end = may_end-is_crlfcrlf (slide w c) b' k.goes_on in
    let (q1, e) = header_byte-heading char_signed (value w) q c (ap is_crlfcrlf pushed ∙ no_end) in
    let (q2, f) = header_stays char_signed (slide w c) q1 s rest b' k.later in
    (
      q2,
      extract-header_byte char_signed (value w) q c (s ++ rest) _
            (e ∙ ap (λ v. heading v q1) pushed)
          ∙ f,
    )

-- The byte that ends the header starts the content phase.
pub header_ends :
    (char_signed : Bool) (w : ℕ) (q : SearchPattern) (c : ℕ) (rest : Bytes)
    → is_crlfcrlf (push_byte char_signed w c) ≡ true
    → extract_data char_signed (heading w q) (c ∷ rest)
      ≡ extract_data char_signed (reading (push_byte char_signed w c) q [] 0) rest
header_ends char_signed w q c rest h =
    extract-header_byte char_signed w q c rest _ (header_byte-reading char_signed w q c h)
