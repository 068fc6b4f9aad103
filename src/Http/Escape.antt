-- ===== src/Http/Escape.antt =====
-- `hex_char_to_int` and `unescape` of plugins/output_http/httpd.c.
mod Digits
pub mod Decode
mod Buffer
pub mod Loop
use robotica_movel.Prelude.{
  ℕ, zero, suc, ◌+◌, ◌-◌, ◌*◌, ◌/◌, ◌%◌, ◌^◌, ◌≤◌, ◌<◌, min, max, Bool, true, false, not, ◌&&◌,
  ◌||◌, List, [], ◌∷◌, ◌++◌, map, Option, none, some, ◌≡◌, refl, sym, ap, ◌∙◌, ◌↔◌, ◌≢◌, ◌⊎◌, arith,
  ltb, leb, ◌==◌, ==_iff, Bool-cases, Option-cases, inl, inr, ltb→lt, leb→le, lt→ltb, if◌then◌else◌,
  Bytes, codes, length, get_elem?, take, drop, replicate, All, all, append-nil, append_assoc,
  length-append, take-append-drop, length-take, length-drop, length-replicate, drop-append,
  take-append, drop_all, take_all, All-append,
}

-- -1 is `none`.
unfoldable pub hex_char_to_int : ℕ → Option ℕ
hex_char_to_int c =
    if leb b'0' c && leb c b'9'
    then some (c - b'0')
    else if leb b'a' c && leb c b'f'
    then some (c - b'a' + 10)
    else if leb b'A' c && leb c b'F'
    then some (c - b'A' + 10)
    else none

-- Reads and writes of the buffer.
unfoldable pub get_at : Bytes → ℕ → ℕ
get_at [] i = 0
get_at (x ∷ xs) zero = x
get_at (x ∷ xs) (suc i) = get_at xs i

unfoldable pub set_at : Bytes → ℕ → ℕ → Bytes
set_at [] i v = []
set_at (x ∷ xs) zero v = v ∷ xs
set_at (x ∷ xs) (suc i) v = x ∷ set_at xs i v

-- `destination[dst] += rc`, with the value of the second digit.
pub put_low : Bytes → ℕ → Option ℕ → Option Bytes
put_low buf dst none = none
put_low buf dst (some lo) = some (set_at buf dst (get_at buf dst + lo))

-- `destination[dst] = rc * 16`, with the value of the first digit; the second is read after that.
pub put_high : Bytes → ℕ → ℕ → Option ℕ → Option Bytes
put_high buf src dst none = none
put_high buf src dst (some hi) =
    let buf' = set_at buf dst (hi * 16) in
    put_low buf' dst (hex_char_to_int (get_at buf' (src + 2)))

-- An escape at `src`: the two digits after it become the byte at `dst`.
pub put_escape : Bytes → ℕ → ℕ → Option Bytes
unfolding put_low put_high
put_escape buf src dst = put_high buf src dst (hex_char_to_int (get_at buf (src + 1)))

-- An escape without two digits ends the loop.
abbrev pub and_then : Option Bytes → (Bytes → Option Bytes) → Option Bytes
and_then none next = none
and_then (some buf) next = next buf

-- `for(dst = 0, src = 0; src < length; src++)` over the one buffer, by the bytes left to read; the
-- NUL is written behind the loop. `none` is the return value -1.
unfoldable pub unescape_loop : ℕ → Bytes → ℕ → ℕ → ℕ → Option Bytes
unescape_loop zero buf src dst len = some (set_at buf dst 0)
unescape_loop (suc left) buf src dst len =
    if ltb src len
    then elim (get_at buf src == b'%') [
      | false ↦ unescape_loop left (set_at buf dst (get_at buf src)) (src + 1) (dst + 1) len
      | true ↦ elim (ltb len (src + 2)) [
        | true ↦ none
        | false ↦
            and_then (put_escape buf src dst)
              (λ buf'. unescape_loop left buf' (src + 3) (dst + 1) len)
      ]
    ]
    else some (set_at buf dst 0)

-- `unescape`, on the string and its NUL; what it leaves in the buffer.
unfoldable pub unescape : Bytes → Option Bytes
unfolding unescape_loop put_escape get_at set_at hex_char_to_int
unescape s = unescape_loop (length s) (s ++ (0 ∷ [])) 0 0 (length s)
