-- ===== src/Proxy/PartHeader.antt =====
-- The header of a part of the stream of `send_stream` of plugins/output_http/httpd.c, as the mask tests
-- of plugins/input_http see it.
use robotica_movel.Prelude.{
  ℕ, zero, suc, ◌+◌, ◌-◌, ◌<◌, Bool, true, false, ◌&&◌, [], ◌∷◌, ◌++◌, ◌≡◌, refl, sym, ap, ◌∙◌,
  arith, Bytes, codes, length, All, append_assoc,
}
use mathlib.Core.Path.{subst}
use robotica_movel.CString.Number.{decimal, decimal_padded}
use robotica_movel.CString.Digits.{
  IsDigit, decimal-All, decimal_some, decimal_padded-All, decimal_padded_some,
}
use robotica_movel.Http.Stream.{Frame}
use robotica_movel.Proxy.{is_crlfcrlf, push_byte}
use robotica_movel.Proxy.Window.{
  Window, slide, value, AreBytes, push_byte-value, may_be_cr, may_be_lf,
}
use robotica_movel.Proxy.Quiet.{
  quiet, slides, slides-AreBytes, slides-append, quiet-append, IsPlain, IsPlainAscii, blank,
  quiet_plain, quiet-blank,
}

digit_value : (k : ℕ) → k < 10 → (may_be_cr (48 + k) ≡ false) × (may_be_lf (48 + k) ≡ false)
digit_value zero h = (refl, refl)
digit_value (suc zero) h = (refl, refl)
digit_value (suc (suc zero)) h = (refl, refl)
digit_value (suc (suc (suc zero))) h = (refl, refl)
digit_value (suc (suc (suc (suc zero)))) h = (refl, refl)
digit_value (suc (suc (suc (suc (suc zero))))) h = (refl, refl)
digit_value (suc (suc (suc (suc (suc (suc zero)))))) h = (refl, refl)
digit_value (suc (suc (suc (suc (suc (suc (suc zero))))))) h = (refl, refl)
digit_value (suc (suc (suc (suc (suc (suc (suc (suc zero)))))))) h = (refl, refl)
digit_value (suc (suc (suc (suc (suc (suc (suc (suc (suc zero))))))))) h = (refl, refl)
digit_value (suc (suc (suc (suc (suc (suc (suc (suc (suc (suc k)))))))))) h = absurd (omega arith)

-- Digits are plain.
digit-Plain : (c : ℕ) → IsDigit c → IsPlainAscii c
digit-Plain c h =
    let e : 48 + (c - 48) ≡ c = omega arith in
    let v = digit_value (c - 48) (omega arith) in
    (
      record {
        no_cr = subst (λ x. may_be_cr x ≡ false) e v.0;
        no_lf = subst (λ x. may_be_lf x ≡ false) e v.1;
      },
      omega arith,
    )

digits-Plain : (s : Bytes) → All IsDigit s → All IsPlainAscii s
digits-Plain [] h = tt
digits-Plain (c ∷ s) h = (digit-Plain c h.0, digits-Plain s h.1)

-- The header of a part behind the line end of the boundary, less its last byte; and where it is cut.
abbrev pub first_piece : Bytes
first_piece = codes "\r\nContent-Type: image/jpeg\r\nContent-Length: "

abbrev pub second_piece : Bytes
second_piece = codes "\r\nX-Timestamp: "

abbrev pub last_piece : Bytes
last_piece = codes "\r\n\r"

abbrev pub head : Frame → Bytes
head f =
    first_piece
    ++ (decimal (length f.picture)
        ++ (second_piece
            ++ (decimal f.tv_sec ++ (codes "." ++ (decimal_padded 6 f.tv_usec ++ last_piece)))))

-- A text that is quiet from the blank window on, and ends in a plain byte.
record EndsPlain (s : Bytes) : Type 0 where
  all_quiet : quiet blank s ≡ true
  plain_end : IsPlain (slides blank s).latest

after_plain : (s t : Bytes) → EndsPlain s → quiet blank (s ++ t) ≡ quiet blank t
after_plain s t h =
    quiet-append blank s t
    ∙ (ap (λ r. r && quiet (slides blank s) t) h.all_quiet
        ∙ quiet-blank (slides blank s) t h.plain_end)

first_piece-Plain : EndsPlain first_piece
unfolding quiet slides
first_piece-Plain = record { all_quiet = refl; plain_end = record { no_cr = refl; no_lf = refl } }

second_piece-Plain : EndsPlain second_piece
unfolding quiet slides
second_piece-Plain = record { all_quiet = refl; plain_end = record { no_cr = refl; no_lf = refl } }

quiet-decimal : (w : Window) (n : ℕ) (s : Bytes) → quiet w (decimal n ++ s) ≡ quiet blank s
quiet-decimal w n s = quiet_plain w (decimal n) s (decimal_some n) (digits-Plain _ (decimal-All n))

quiet-padded :
    (w : Window) (k n : ℕ) (s : Bytes) → quiet w (decimal_padded k n ++ s) ≡ quiet blank s
quiet-padded w k n s =
    quiet_plain w (decimal_padded k n) s (decimal_padded_some k n)
      (digits-Plain _ (decimal_padded-All k n))

point_alone : quiet blank (codes ".") ≡ true
unfolding quiet
point_alone = refl

last_alone : quiet blank last_piece ≡ true
unfolding quiet
last_alone = refl

quiet-point :
    (k n : ℕ) (s : Bytes) → quiet blank (codes "." ++ (decimal_padded k n ++ s)) ≡ quiet blank s
quiet-point k n s =
    quiet-append blank (codes ".") (decimal_padded k n ++ s)
    ∙ (ap (λ r. r && quiet (slides blank (codes ".")) (decimal_padded k n ++ s)) point_alone
        ∙ quiet-padded (slides blank (codes ".")) k n s)

pub quiet-head : (f : Frame) → quiet blank (head f) ≡ true
quiet-head f =
    after_plain first_piece _ first_piece-Plain
    ∙ (quiet-decimal blank _ _
        ∙ (after_plain second_piece _ second_piece-Plain
            ∙ (quiet-decimal blank _ _ ∙ (quiet-point 6 f.tv_usec last_piece ∙ last_alone))))

-- The header cut before the bytes that end it.
abbrev before_last : Frame → Bytes
before_last f =
    first_piece
    ++ (decimal (length f.picture)
        ++ (second_piece ++ (decimal f.tv_sec ++ (codes "." ++ decimal_padded 6 f.tv_usec))))

regroup :
    (a b c d e p s : Bytes)
    → (a ++ (b ++ (c ++ (d ++ (e ++ p))))) ++ s ≡ a ++ (b ++ (c ++ (d ++ (e ++ (p ++ s)))))
regroup a b c d e p s = simp append_assoc

pub blank-AreBytes : AreBytes blank
blank-AreBytes = record {
  oldest_byte = omega arith;
  second_byte = omega arith;
  third_byte = omega arith;
  latest_byte = omega arith;
}

slides_end : (w : Window) (s : Bytes) → slides w (s ++ last_piece) ≡ slides (slides w s) last_piece
slides_end w s = slides-append w s last_piece

head_split : (f : Frame) → before_last f ++ last_piece ≡ head f
head_split f =
    regroup first_piece (decimal (length f.picture)) second_piece (decimal f.tv_sec) (codes ".")
      (decimal_padded 6 f.tv_usec) last_piece

head_window :
    (f : Frame)
    → slide (slides blank (head f)) b'\n'
      ≡ record { oldest = b'\r'; second = b'\n'; third = b'\r'; latest = b'\n' }
head_window f =
    ap (λ s. slide (slides blank s) b'\n') (sym (head_split f))
    ∙ (ap (λ w. slide w b'\n') (slides_end blank (before_last f))
        ∙ three (slides blank (before_last f)))
  where
    three :
        (w : Window)
        → slide (slides w last_piece) b'\n'
          ≡ record { oldest = b'\r'; second = b'\n'; third = b'\r'; latest = b'\n' }
    three w = unfold slides in refl

crlfcrlf :
    is_crlfcrlf (value (record { oldest = b'\r'; second = b'\n'; third = b'\r'; latest = b'\n' }))
    ≡ true
unfolding is_crlfcrlf
crlfcrlf = refl

pub head_ends :
    (char_signed : Bool) (f : Frame)
    → is_crlfcrlf (push_byte char_signed (value (slides blank (head f))) b'\n') ≡ true
head_ends char_signed f =
    ap is_crlfcrlf (
      push_byte-value char_signed (slides blank (head f)) b'\n'
        (slides-AreBytes blank (head f) blank-AreBytes (quiet-head f)) (omega arith)
      ∙ ap value (head_window f))
    ∙ crlfcrlf
