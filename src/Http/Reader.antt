-- ===== src/Http/Reader.antt =====
-- `iobuffer`, `_read` and `_readline` of plugins/output_http/httpd.c. The socket is the list of what
-- `select` and `read` report next; when the list ends, nothing more arrives and `select` times out.
pub mod Lines
pub mod Progress
use robotica_movel.Prelude.{
  ℕ, zero, suc, ◌+◌, ◌-◌, ◌*◌, ◌/◌, ◌%◌, ◌^◌, ◌≤◌, ◌<◌, min, max, Bool, true, false, not, ◌&&◌,
  ◌||◌, List, [], ◌∷◌, ◌++◌, map, Option, none, some, ◌≡◌, refl, sym, ap, ◌∙◌, ◌↔◌, ◌≢◌, ◌⊎◌, arith,
  ltb, leb, ◌==◌, ==_iff, Bool-cases, Option-cases, inl, inr, ltb→lt, leb→le, lt→ltb, if◌then◌else◌,
  Bytes, codes, length, get_elem?, take, drop, replicate, All, all, append-nil, append_assoc,
  length-append, take-append-drop, length-take, length-drop, length-replicate, drop-append,
  take-append, All-append,
}

-- `IO_BUFFER`
abbrev pub io_buffer : ℕ
io_buffer = 256

-- The bytes stand at the end of the buffer: the last `level` of them are still to be read.
pub record Iobuffer : Type 0 where
  pub level : ℕ
  pub buffer : Bytes

-- `init_iobuffer`
abbrev pub init_iobuffer : Iobuffer
init_iobuffer = record { level = 0; buffer = replicate io_buffer 0 }

-- What `select`, and the `read` behind it, report.
pub data Event : Type 0 where
  timeout : Event
  select_error : Event
  closed : Event
  arrived : Bytes → Event

-- `_read` returns the bytes copied, or -1, or ends the process (`exit` when `select` fails). After
-- -1 the level is what `read` returned; every caller drops the buffer then.
pub data ReadResult : Type 0 where
  got : Bytes → Iobuffer → List Event → ReadResult
  failed : List Event → ReadResult
  exited : ReadResult

-- `memcpy` from the end of the buffer, then `iobuf->level -= i`.
pub copied : Iobuffer → ℕ → Bytes
copied io n = take n (drop (io_buffer - io.level) io.buffer)

pub consume : Iobuffer → ℕ → Iobuffer
consume io n = record io { level = io.level - n }

-- `init_iobuffer`, then `read` into the front of the buffer, then `memmove` to its end: the bytes
-- below the moved ones keep their values.
pub refill : Bytes → Iobuffer
refill bs =
    let n = length bs in
    let front = bs ++ replicate (io_buffer - n) 0 in
    record { level = n; buffer = take (io_buffer - n) front ++ take n front }

-- The loop of `_read`, at the top of a round.
unfoldable pub read_loop : List Event → Iobuffer → Bytes → ℕ → ReadResult
read_loop [] io out len =
    let i = min io.level (len - length out) in got (out ++ copied io i) (consume io i) []
read_loop (e ∷ es) io out len =
    let i = min io.level (len - length out) in
    let out' = out ++ copied io i in
    let more : ReadResult = elim e [
      | timeout ↦ got out' (consume io i) es
      | select_error ↦ exited
      | closed ↦ failed es
      | arrived bs ↦ read_loop es (refill bs) out' len
    ] in
    if leb len (length out') then got out' (consume io i) (e ∷ es) else more

-- `while(copied < len)`: with `len` 0 the loop is not entered.
unfoldable pub read : List Event → Iobuffer → ℕ → ReadResult
unfolding read_loop copied consume refill
read es io zero = got [] io es
read es io (suc n) = read_loop es io [] (suc n)

-- `_readline` returns the line, or -1 and nothing of what was read.
pub data LineResult : Type 0 where
  line : Bytes → Iobuffer → List Event → LineResult
  no_line : LineResult
  stopped : LineResult

-- The body of the loop, behind `_read(fd, iobuf, &c, 1, timeout)`; `next` is the next round.
pub on_byte : ReadResult → Bytes → (List Event → Iobuffer → Bytes → LineResult) → LineResult
on_byte (got [] io es) out next = no_line
on_byte (got (c ∷ cs) io es) out next = elim (c == b'\n') [
  | true ↦ line (out ++ (c ∷ [])) io es
  | false ↦ next es io (out ++ (c ∷ []))
]
on_byte (failed es) out next = no_line
on_byte exited out next = stopped

-- `for(i = 0; i < len && c != '\n'; i++)`, by the rounds left.
unfoldable pub readline_loop : ℕ → List Event → Iobuffer → Bytes → LineResult
unfolding on_byte
readline_loop zero es io out = line out io es
readline_loop (suc n) es io out =
    on_byte (read es io 1) out (λ es' io' out'. readline_loop n es' io' out')

unfoldable pub readline : List Event → Iobuffer → ℕ → LineResult
unfolding readline_loop read
readline es io len = readline_loop len es io []

-- Bytes that may still arrive.
unfoldable pub incoming : List Event → ℕ
incoming [] = 0
incoming (arrived bs ∷ es) = length bs + incoming es
incoming (timeout ∷ es) = incoming es
incoming (select_error ∷ es) = incoming es
incoming (closed ∷ es) = incoming es

-- The bytes that are buffered or may still arrive.
unfoldable pub bytes_left : List Event → Iobuffer → ℕ
unfolding incoming
bytes_left es io = io.level + incoming es
