-- ===== src/Http/Base64.antt =====
-- `decodeBase64` of plugins/output_http/httpd.c.
pub mod Encode
use robotica_movel.Prelude.{
  ℕ, zero, suc, ◌+◌, ◌-◌, ◌*◌, ◌/◌, ◌%◌, ◌^◌, ◌≤◌, ◌<◌, min, max, Bool, true, false, not, ◌&&◌,
  ◌||◌, List, [], ◌∷◌, ◌++◌, map, Option, none, some, ◌≡◌, refl, sym, ap, ◌∙◌, ◌↔◌, ◌≢◌, ◌⊎◌, arith,
  ltb, leb, ◌==◌, ==_iff, Bool-cases, Option-cases, inl, inr, ltb→lt, leb→le, lt→ltb, if◌then◌else◌,
  Bytes, codes, length, get_elem?, take, drop, replicate, All, all, append-nil, append_assoc,
  length-append, take-append-drop, length-take, length-drop, length-replicate, drop-append,
  take-append, drop_all, take_all, All-append,
}

-- The value of a character of the alphabet, `=` included; any other is skipped.
unfoldable pub sextet : ℕ → Option ℕ
sextet t =
    if leb b'0' t && leb t b'9'
    then some (t - b'0' + 52)
    else if leb b'A' t && leb t b'Z'
    then some (t - b'A')
    else if leb b'a' t && leb t b'z'
    then some (t - b'a' + 26)
    else if t == b'+'
    then some 62
    else if t == b'/'
    then some 63
    else if t == b'='
    then some 0
    else none

-- `ch = (ch << 6) | t`, of a 32-bit `ch`: the low six bits are free for `t`.
unfoldable pub shift_in : ℕ → ℕ → ℕ
shift_in ch t = ch * 64 % 2 ^ 32 + t

-- The bytes written to the front of the string while the rest of it is read: three for each four
-- characters, so what is written lies before what is still to be read.
unfoldable pub decode_loop : ℕ → ℕ → Bytes → Bytes
decode_loop ch i [] = []
decode_loop ch i (c ∷ cs) = elim (sextet c) [
  | none ↦ decode_loop ch i cs
  | some t ↦
      (let ch' = shift_in ch t in
        let rest = decode_loop ch' (if i + 1 == 4 then 0 else i + 1) cs in
        if i + 1 == 4
        then (ch' / 2 ^ 16 % 256) ∷ (ch' / 2 ^ 8 % 256) ∷ (ch' % 256) ∷ rest
        else rest)
]

unfoldable pub decode_base64 : Bytes → Bytes
unfolding decode_loop sextet shift_in
decode_base64 s = decode_loop 0 0 s
