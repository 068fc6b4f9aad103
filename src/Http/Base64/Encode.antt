-- ===== src/Http/Base64/Encode.antt =====
-- `decodeBase64` undoes the encoding of RFC 4648.
use robotica_movel.Prelude.{
  ℕ, ◌+◌, ◌-◌, ◌*◌, ◌/◌, ◌%◌, ◌^◌, ◌≤◌, ◌<◌, [], ◌∷◌, ◌++◌, some, ◌≡◌, refl, ap, ◌∙◌, ◌≢◌, arith,
  ltb, ◌==◌, Option-cases, inl, inr, if◌then◌else◌, Bytes, length, All,
}
use robotica_movel.Http.Base64.{sextet, shift_in, decode_loop, decode_base64}
use robotica_movel.CString.{c_string}

-- The character of a value below 64.
unfoldable pub letter : ℕ → ℕ
letter v =
    if ltb v 26
    then b'A' + v
    else if ltb v 52
    then b'a' + (v - 26)
    else if ltb v 62
    then b'0' + (v - 52)
    else if v == 62
    then b'+'
    else b'/'

-- The encoding, group by group, with `=` in the places that the last group leaves open.
unfoldable pub encode : Bytes → Bytes
unfolding letter
encode [] = []
encode (a ∷ []) = letter (a / 4) ∷ letter (a % 4 * 16) ∷ b'=' ∷ b'=' ∷ []
encode (a ∷ b ∷ []) =
    letter (a / 4) ∷ letter (a % 4 * 16 + b / 16) ∷ letter (b % 16 * 4) ∷ b'=' ∷ []
encode (a ∷ b ∷ c ∷ r) =
    letter (a / 4)
    ∷ letter (a % 4 * 16 + b / 16)
    ∷ letter (b % 16 * 4 + c / 64)
    ∷ letter (c % 64)
    ∷ encode r

-- The zero bytes that the decoder writes for the padding.
abbrev pub padding : Bytes → Bytes
padding [] = []
padding (a ∷ []) = 0 ∷ 0 ∷ []
padding (a ∷ b ∷ []) = 0 ∷ []
padding (a ∷ b ∷ c ∷ r) = padding r

abbrev pub IsByte : ℕ → Type 0
IsByte c = c < 256

sextet-letter : (v : ℕ) → v < 64 → sextet (letter v) ≡ some v
unfolding sextet letter
sextet-letter v h = ground arith

sextet_pad : sextet b'=' ≡ some 0
unfolding sextet
sextet_pad = refl

-- Four characters of the alphabet, read from a group's start.
decode_four :
    (ch p q r s v w x y : ℕ) (rest : Bytes)
    → sextet p ≡ some v
    → sextet q ≡ some w
    → sextet r ≡ some x
    → sextet s ≡ some y
    → decode_loop ch 0 (p ∷ q ∷ r ∷ s ∷ rest) ≡ (
        let n = shift_in (shift_in (shift_in (shift_in ch v) w) x) y in
        (n / 2 ^ 16 % 256) ∷ (n / 2 ^ 8 % 256) ∷ (n % 256) ∷ decode_loop n 0 rest)
unfolding decode_loop
decode_four ch p q r s v w x y rest hp hq hr hs =
    rw (hp, decode_loop) (rw (hq, decode_loop) (rw (hr, decode_loop) (rw (hs, decode_loop))))

-- What the four values leave in the low 24 bits.
group_bytes :
    (ch v w x y : ℕ)
    → v < 64
    → w < 64
    → x < 64
    → y < 64
    → (let n = shift_in (shift_in (shift_in (shift_in ch v) w) x) y in
        (n / 2 ^ 16 % 256 ≡ v * 4 + w / 16)
        × (n / 2 ^ 8 % 256 ≡ w % 16 * 16 + x / 4)
        × (n % 256 ≡ x % 4 * 64 + y))
unfolding shift_in
group_bytes ch v w x y hv hw hx hy = omega arith

-- One group decodes to the three bytes that its values stand for.
decode_group :
    (ch p q r s v w x y : ℕ) (rest : Bytes)
    → (sextet p ≡ some v) × (sextet q ≡ some w) × (sextet r ≡ some x) × (sextet s ≡ some y)
    → (v < 64) × (w < 64) × (x < 64) × (y < 64)
    → (n : ℕ) × (decode_loop ch 0 (p ∷ q ∷ r ∷ s ∷ rest)
        ≡ (v * 4 + w / 16) ∷ (w % 16 * 16 + x / 4) ∷ (x % 4 * 64 + y) ∷ decode_loop n 0 rest)
decode_group ch p q r s v w x y rest (hp, hq, hr, hs) (hv, hw, hx, hy) =
    let n : ℕ = shift_in (shift_in (shift_in (shift_in ch v) w) x) y in
    let (a, b, c) = group_bytes ch v w x y hv hw hx hy in
    (n, decode_four ch p q r s v w x y rest hp hq hr hs ∙ rw (a, b, c))

-- The bytes `a b c` come back from four characters with the values of their encoding.
decode_triple :
    (ch a b c p q r s : ℕ) (rest : Bytes)
    → IsByte a × IsByte b × IsByte c
    → sextet p ≡ some (a / 4)
    → sextet q ≡ some (a % 4 * 16 + b / 16)
    → sextet r ≡ some (b % 16 * 4 + c / 64)
    → sextet s ≡ some (c % 64)
    → (n : ℕ) × (decode_loop ch 0 (p ∷ q ∷ r ∷ s ∷ rest) ≡ a ∷ b ∷ c ∷ decode_loop n 0 rest)
decode_triple ch a b c p q r s rest h hp hq hr hs =
    let v : ℕ = a / 4 in
    let w : ℕ = a % 4 * 16 + b / 16 in
    let x : ℕ = b % 16 * 4 + c / 64 in
    let y : ℕ = c % 64 in
    let (n, e) = decode_group ch p q r s v w x y rest (hp, hq, hr, hs) (omega arith) in
    let first : v * 4 + w / 16 ≡ a = omega arith in
    let second : w % 16 * 16 + x / 4 ≡ b = omega arith in
    let third : x % 4 * 64 + y ≡ c = omega arith in (n, e ∙ cc (first, second, third))

decode_loop-nil : (n : ℕ) → decode_loop n 0 [] ≡ []
unfolding decode_loop
decode_loop-nil n = refl

decode_loop-encode :
    (bs : Bytes) (ch : ℕ) → All IsByte bs → decode_loop ch 0 (encode bs) ≡ bs ++ padding bs
unfolding encode
decode_loop-encode [] ch h = decode_loop-nil ch
decode_loop-encode (a ∷ []) ch h =
    let (n, e) =
      decode_triple ch a 0 0 _ _ _ _ [] (omega arith) (sextet-letter _ (omega arith))
        (sextet-letter (a % 4 * 16) (omega arith) ∙ ap some (omega arith)) sextet_pad sextet_pad in
    e ∙ rw decode_loop-nil
decode_loop-encode (a ∷ b ∷ []) ch h =
    let (n, e) =
      decode_triple ch a b 0 _ _ _ _ [] (omega arith) (sextet-letter _ (omega arith))
        (sextet-letter _ (omega arith))
        (sextet-letter (b % 16 * 4) (omega arith) ∙ ap some (omega arith)) sextet_pad in
    e ∙ rw decode_loop-nil
decode_loop-encode (a ∷ b ∷ c ∷ r) ch (ha, (hb, (hc, hr))) =
    let (n, e) =
      decode_triple ch a b c _ _ _ _ (encode r) (ha, hb, hc) (sextet-letter _ (omega arith))
        (sextet-letter _ (omega arith)) (sextet-letter _ (omega arith))
        (sextet-letter _ (omega arith)) in
    e ∙ rw (decode_loop-encode r n hr)

c_string-padding :
    (bs : Bytes) (zs : Bytes) → All (λ c. c ≢ 0) bs → c_string zs ≡ [] → c_string (bs ++ zs) ≡ bs
unfolding c_string
c_string-padding [] zs h z = z
c_string-padding (c ∷ cs) zs (hc, h) z = ground (arith, c_string-padding cs zs h z)

c_string_of_padding : (bs : Bytes) → c_string (padding bs) ≡ []
unfolding c_string
c_string_of_padding [] = refl
c_string_of_padding (a ∷ []) = refl
c_string_of_padding (a ∷ b ∷ []) = refl
c_string_of_padding (a ∷ b ∷ c ∷ r) = c_string_of_padding r

-- Read as a C string, what `decodeBase64` makes of the RFC 4648 encoding of a text is the text: for
-- every text of bytes with no NUL, of any length, padded or not.
pub decode_base64-encode :
    (bs : Bytes) → All IsByte bs → All (λ c. c ≢ 0) bs → c_string (decode_base64 (encode bs)) ≡ bs
unfolding decode_base64
decode_base64-encode bs h nonzero =
    ap c_string (decode_loop-encode bs 0 h)
    ∙ c_string-padding bs (padding bs) nonzero (c_string_of_padding bs)

-- The bytes written never catch up with the bytes read: `i` characters of a group are pending.
decode_loop-length :
    (s : Bytes) (ch i : ℕ) → i < 4 → 4 * length (decode_loop ch i s) ≤ 3 * (length s + i)
unfolding decode_loop
decode_loop-length [] ch i h = omega arith
decode_loop-length (c ∷ cs) ch i h = elim (Option-cases (sextet c)) [
  | inl skipped ↦ ground (arith, decode_loop-length cs ch i)
  | inr (t, e) ↦ ground (
    arith,
    decode_loop-length cs (shift_in ch t) 0,
    decode_loop-length cs (shift_in ch t) (i + 1),
  )
]

-- The decoded size is at most 3/4 of the size of the text, whatever the text holds, so that the
-- buffer of the text is large enough for the result.
pub length-decode_base64 : (s : Bytes) → 4 * length (decode_base64 s) ≤ 3 * length s
unfolding decode_base64
length-decode_base64 s = omega (arith, decode_loop-length s 0 0)
