-- ===== src/Proxy.antt =====
-- The parser of plugins/input_http, misc.c and mjpg-proxy.c, which cuts the pictures out of the
-- stream of another server.
pub mod Bounds
pub mod Matcher
pub mod Picture
pub mod Window
pub mod Quiet
pub mod Header
pub mod PartHeader
pub mod RoundTrip
pub mod Connection
pub mod Delivery
pub mod Request
pub mod CommandLine
mod Tests
use robotica_movel.Prelude.{
  ℕ, zero, suc, ◌+◌, ◌-◌, ◌*◌, ◌/◌, ◌%◌, ◌^◌, Bool, ◌&&◌, List, [], ◌∷◌, ◌++◌, Option, none, some,
  leb, ◌==◌, if◌then◌else◌, Bytes, codes, length, take,
}
use Prim.Native.Nat.{bit_and}
use robotica_movel.Prelude.Int.{ℤ, pos, negsuc, ◌-ℤ◌}

-- `struct search_pattern`: the text, and the place of `current_matched_char` in it.
pub record SearchPattern : Type 0 where
  pub string : Bytes
  pub current : ℕ

-- The character at the place; behind the text stands its NUL.
unfoldable pub char_at : Bytes → ℕ → ℕ
char_at [] i = 0
char_at (c ∷ s) zero = c
char_at (c ∷ s) (suc i) = char_at s i

-- `search_pattern_reset`
abbrev pub pattern_reset : SearchPattern → SearchPattern
pattern_reset p = record p { current = 0 }

-- `search_pattern_compare`, whose result no caller uses.
unfoldable pub pattern_compare : SearchPattern → ℕ → SearchPattern
unfolding char_at
pattern_compare p c =
    if char_at p.string p.current == c
    then record p { current = p.current + 1 }
    else pattern_reset p

-- `search_pattern_matches`
unfoldable pub pattern_matches : SearchPattern → Bool
unfolding char_at
pattern_matches p = char_at p.string p.current == 0

-- `is_crlf`: the mask 0x0d0a tests single bits of the two bytes.
unfoldable pub is_crlf : ℕ → Bool
is_crlf bytes = bit_and 0x0d0a bytes == 0x0d0a

-- `is_crlfcrlf`; `bytes >> 16` copies the sign, into bits that the mask does not read.
unfoldable pub is_crlfcrlf : ℕ → Bool
unfolding is_crlf
is_crlfcrlf bytes = is_crlf bytes && is_crlf (bytes / 2 ^ 16)

-- `push_byte` on the 32 bits of an `int`. Where `char` is signed, a byte from 128 on is negative,
-- and `|` sets all the bits above it.
unfoldable pub push_byte : Bool → ℕ → ℕ → ℕ
push_byte char_signed bytes c =
    if leb 128 c && char_signed then 2 ^ 32 - 256 + c else bytes * 256 % 2 ^ 32 + c

-- `part`
pub data Part : Type 0 where
  header content : Part

-- `struct extractor_state`, less the socket and its address. `length` is the length of `buffer`.
pub record Extractor : Type 0 where
  pub part : Part
  pub buffer : Bytes
  pub last_four_bytes : ℕ
  pub contentlength : SearchPattern
  pub boundary : SearchPattern

-- `BUFFER_SIZE`
abbrev pub buffer_size : ℕ
buffer_size = 1024 * 256

abbrev pub boundary_text : Bytes
boundary_text = codes "--boundarydonotcross"

-- `init_extractor_state`
abbrev pub init_extractor : Extractor
init_extractor = record {
  part = header;
  buffer = [];
  last_four_bytes = 0;
  contentlength = record { string = codes "Content-Length:"; current = 0 };
  boundary = record { string = boundary_text; current = 0 };
}

-- A call `on_image_received(buffer, length)`.
pub record Image : Type 0 where
  pub data' : Bytes
  pub length' : ℤ

-- `case HEADER`
unfoldable pub header_byte : Bool → Extractor → ℕ → Extractor
header_byte char_signed st c =
    let w = push_byte char_signed st.last_four_bytes c in
    let seen = pattern_compare st.contentlength c in
    if is_crlfcrlf w
    then record st { last_four_bytes = w; part = content }
    else if is_crlf w
    then record st { last_four_bytes = w; contentlength = pattern_reset st.contentlength }
    else if pattern_matches seen
    then record st { last_four_bytes = w; contentlength = pattern_reset seen }
    else record st { last_four_bytes = w; contentlength = seen }

-- `case CONTENT`; a full buffer drops the byte.
unfoldable pub content_byte : Extractor → ℕ → Extractor × List Image
content_byte st c =
    if leb (buffer_size - 1) (length st.buffer)
    then (st, [])
    else (let buffer' = st.buffer ++ (c ∷ []) in
        let seen = pattern_compare st.boundary c in
        if pattern_matches seen
        then (
          init_extractor,
          record {
            data' = buffer';
            length' = pos (length buffer') -ℤ pos (length st.boundary.string + 2);
          }
              ∷ [],
        )
        else (record st { buffer = buffer'; boundary = seen }, []))

unfoldable pub step_in : Part → Bool → Extractor → ℕ → Extractor × List Image
unfolding header_byte content_byte
step_in header char_signed st c = (header_byte char_signed st c, [])
step_in content char_signed st c = content_byte st c

-- `extract_data` over the bytes that are looked at before `should_stop` is set: the state, and the
-- pictures handed to `on_image_received`.
unfoldable pub extract_data : Bool → Extractor → Bytes → Extractor × List Image
unfolding step_in
extract_data char_signed st [] = (st, [])
extract_data char_signed st (c ∷ cs) =
    let (st', now) = step_in st.part char_signed st c in
    let (st'', later) = extract_data char_signed st' cs in (st'', now ++ later)

-- `on_image_received`, where the length is not negative: the bytes that go to the global buffer.
unfoldable pub received : Image → Option Bytes
received i = elim i.length' [ pos n ↦ some (take n i.data') | negsuc n ↦ none ]
