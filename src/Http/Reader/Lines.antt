-- ===== src/Http/Reader/Lines.antt =====
-- `_readline` does not depend on how the bytes of the connection are cut into packets.
use robotica_movel.Prelude.{
  ℕ, zero, suc, ◌-◌, ◌≤◌, ◌<◌, min, Bool, true, false, List, [], ◌∷◌, ◌++◌, Option, none, some, ◌≡◌,
  refl, sym, ap, ◌∙◌, ◌⊎◌, arith, ◌==◌, Bool-cases, inl, inr, if◌then◌else◌, Bytes, length, take,
  drop, replicate, All, append_assoc, length-append, length-take, length-replicate, drop-append,
  take-append, drop_all,
}
use robotica_movel.Http.Reader.{
  io_buffer, Iobuffer, init_iobuffer, Event, timeout, select_error, closed, arrived, ReadResult,
  got, failed, exited, copied, consume, refill, read_loop, read, LineResult, line, no_line, stopped,
  readline_loop, readline, on_byte,
}

-- What is buffered and not yet read.
abbrev pub pending : Iobuffer → Bytes
pending io = drop (io_buffer - io.level) io.buffer

-- The bytes that arrive before the first event that is no packet.
abbrev pub arriving : List Event → Bytes
arriving [] = []
arriving (arrived bs ∷ es) = bs ++ arriving es
arriving (_ ∷ es) = []

-- The connection as one text.
abbrev pub text : Iobuffer → List Event → Bytes
text io es = pending io ++ arriving es

pub record IsValid (io : Iobuffer) : Type 0 where
  pub level_in : io.level ≤ io_buffer
  pub whole : length io.buffer ≡ io_buffer

-- `read` returns between 1 and IO_BUFFER bytes when it returns any.
abbrev pub Fits : Event → Type 0
Fits (arrived bs) = (0 < length bs) × (length bs ≤ io_buffer)
Fits _ = Unit

-- The specification: the text up to and with the first newline, or its first `n` bytes, and the rest.
unfoldable pub first_line : ℕ → Bytes → Bytes → Option (Bytes × Bytes)
first_line zero out s = some (out, s)
first_line (suc n) out [] = none
first_line (suc n) out (c ∷ s) =
    let rest = first_line n (out ++ (c ∷ [])) s in
    if c == b'\n' then some (out ++ (c ∷ []), s) else rest

pub init_iobuffer-IsValid : IsValid init_iobuffer
init_iobuffer-IsValid = record { level_in = omega arith; whole = refl }

-- What is left at `n` is a byte, and what is left behind it.
drop-cons :
    {A : Type 0} (n : ℕ) (xs : List A) → n < length xs → (c : A) × (drop n xs ≡ c ∷ drop (suc n) xs)
drop-cons n [] h = absurd (omega arith)
drop-cons zero (x ∷ xs) h = (x, refl)
drop-cons (suc n) (x ∷ xs) h = drop-cons n xs (omega arith)

-- One byte is left in the buffer for `_read` to hand over, or none is.
record OneByte (io : Iobuffer) : Type 0 where
  byte : ℕ
  copied_is : copied io (min io.level 1) ≡ byte ∷ []
  pending_is : pending io ≡ byte ∷ pending (consume io (min io.level 1))
  valid : IsValid (consume io (min io.level 1))

OneByte-at :
    (io : Iobuffer) (c : ℕ)
    → IsValid io
    → 0 < io.level
    → drop (io_buffer - io.level) io.buffer ≡ c ∷ drop (suc (io_buffer - io.level)) io.buffer
    → OneByte io
unfolding copied consume
OneByte-at io c v h e =
    let one : min io.level 1 ≡ 1 = omega arith in
    let next : suc (io_buffer - io.level) ≡ io_buffer - (io.level - 1) = omega arith in
    record {
      byte = c;
      copied_is = rw (one, e);
      pending_is = rw one (e ∙ rw next);
      valid = record { level_in = omega arith; whole = v.whole };
    }

one_byte : (io : Iobuffer) → IsValid io → 0 < io.level → OneByte io
one_byte io v h =
    let (c, e) = drop-cons (io_buffer - io.level) io.buffer (omega (arith, v.whole)) in
    OneByte-at io c v h e

no_byte :
    (io : Iobuffer)
    → IsValid io
    → io.level ≡ 0
    → (copied io (min io.level 1) ≡ []) × (pending io ≡ []) × IsValid (consume io (min io.level 1))
unfolding copied consume
no_byte io v h =
    let none_left : min io.level 1 ≡ 0 = omega arith in
    let end : io_buffer - io.level ≡ length io.buffer = omega (arith, v.whole) in
    (rw none_left, rw end (drop_all io.buffer), record { level_in = omega arith; whole = v.whole })

module _ (bs : Bytes) (h : length bs ≤ io_buffer) where
  abbrev front : Bytes
  front = bs ++ replicate (io_buffer - length bs) 0

  length-front : length front ≡ io_buffer
  length-front = omega (
    arith,
    length-append bs (replicate (io_buffer - length bs) 0),
    length-replicate {A = ℕ} (io_buffer - length bs) 0,
  )

  length_kept : length (take (io_buffer - length bs) front) ≡ io_buffer - length bs
  length_kept = omega (arith, length-take (io_buffer - length bs) front, length-front)

  refill-IsValid : IsValid (refill bs)
  unfolding refill
  refill-IsValid = record {
    level_in = h;
    whole =
        length-append (take (io_buffer - length bs) front) (take (length bs) front)
        ∙ omega (arith, length_kept, length-take (length bs) front, length-front);
  }

  pending-refill : pending (refill bs) ≡ bs
  unfolding refill
  pending-refill =
      ap (λ k. drop k (take (io_buffer - length bs) front ++ take (length bs) front))
        (sym length_kept)
      ∙ drop-append (take (io_buffer - length bs) front) (take (length bs) front)
      ∙ take-append bs (replicate (io_buffer - length bs) 0)

-- What `_read` with `len` 1 makes of the text `s`: its first byte, or no byte when there is none.
abbrev Served : ReadResult → Bytes → Type 0
Served (got [] io es) s = s ≡ []
Served (got (c ∷ []) io es) s = (s ≡ c ∷ text io es) × IsValid io × All Fits es
Served (got (c ∷ d ∷ _) io es) s = ⊥
Served (failed es) s = s ≡ []
Served exited s = s ≡ []

-- With a byte in the buffer the events are left alone.
read_loop_some :
    (es : List Event) (io : Iobuffer)
    → OneByte io
    → All Fits es
    → Served (read_loop es io [] 1) (text io es)
unfolding read_loop
read_loop_some [] io b f = rw (b.copied_is) (rw b.pending_is refl, b.valid, tt)
read_loop_some (e ∷ es) io b f = rw (b.copied_is) (rw b.pending_is refl, b.valid, f)

positive_or_zero : (n : ℕ) → (0 < n) ⊎ (n ≡ 0)
positive_or_zero n = ground arith

read_loop_empty :
    (es : List Event) (io : Iobuffer)
    → IsValid io
    → io.level ≡ 0
    → All Fits es
    → Served (read_loop es io [] 1) (text io es)
unfolding read_loop
read_loop_empty [] io v z f = let (a, b, _) = no_byte io v z in rw (a, b) refl
read_loop_empty (timeout ∷ es) io v z f = let (a, b, _) = no_byte io v z in rw (a, b) refl
read_loop_empty (select_error ∷ es) io v z f = let (a, b, _) = no_byte io v z in rw (a, b) refl
read_loop_empty (closed ∷ es) io v z f = let (a, b, _) = no_byte io v z in rw (a, b) refl
read_loop_empty (arrived bs ∷ es) io v z (fits, f) =
    let (a, b, _) = no_byte io v z in
    let again =
      read_loop_some es (refill bs)
        (one_byte (refill bs) (refill-IsValid bs fits.1) (unfold refill in fits.0)) f in
    rw (a, b) (rw (pending-refill bs fits.1) at again)

read-Served :
    (es : List Event) (io : Iobuffer)
    → IsValid io
    → All Fits es
    → Served (read es io 1) (text io es)
unfolding read
read-Served es io v f = elim (positive_or_zero io.level) [
  | inl some_left ↦ read_loop_some es io (one_byte io v some_left) f
  | inr empty ↦ read_loop_empty es io v empty f
]

-- What a caller of `_readline` has: the line and the text behind it, or no line.
abbrev pub view : LineResult → Option (Bytes × Bytes)
view (line bs io es) = some (bs, text io es)
view no_line = none
view stopped = none

on_byte-view :
    (n : ℕ) (r : ReadResult) (s out : Bytes) (next : List Event → Iobuffer → Bytes → LineResult)
    → ((es : List Event) (io : Iobuffer) (out : Bytes)
        → IsValid io
        → All Fits es
        → view (next es io out) ≡ first_line n out (text io es))
    → Served r s
    → view (on_byte r out next) ≡ first_line (suc n) out s
unfolding on_byte first_line
on_byte-view n (got [] io es) s out next ih h = rw h
on_byte-view n (got (c ∷ []) io es) s out next ih (e, v, f) =
    ground (arith, ih es io (out ++ (c ∷ [])) v f)
on_byte-view n (got (c ∷ d ∷ _) io es) s out next ih h = absurd h
on_byte-view n (failed es) s out next ih h = rw h
on_byte-view n exited s out next ih h = rw h

readline_loop-view :
    (n : ℕ) (es : List Event) (io : Iobuffer) (out : Bytes)
    → IsValid io
    → All Fits es
    → view (readline_loop n es io out) ≡ first_line n out (text io es)
unfolding readline_loop first_line
readline_loop-view zero es io out v f = refl
readline_loop-view (suc n) es io out v f =
    on_byte-view n (read es io 1) (text io es) out _ (readline_loop-view n) (read-Served es io v f)

-- Whatever the packets are, `_readline` returns the text of the connection up to and with the
-- first newline, or its first `len` bytes if they hold none, and leaves the text behind it to the
-- next call; if the text ends before both, it returns no line.
pub readline_refines :
    (es : List Event) (io : Iobuffer) (len : ℕ)
    → IsValid io
    → All Fits es
    → view (readline es io len) ≡ first_line len [] (text io es)
unfolding readline
readline_refines es io len v f = readline_loop-view len es io [] v f

-- After a line the buffer is valid, and what may arrive still fits into it.
abbrev pub Ready : LineResult → Type 0
Ready (line l io es) = IsValid io × All Fits es
Ready no_line = Unit
Ready stopped = Unit

on_byte-Ready :
    (r : ReadResult) (s out : Bytes) (next : List Event → Iobuffer → Bytes → LineResult)
    → ((es : List Event) (io : Iobuffer) (out : Bytes)
        → IsValid io
        → All Fits es
        → Ready (next es io out))
    → Served r s
    → Ready (on_byte r out next)
unfolding on_byte
on_byte-Ready (got [] io es) s out next ih h = tt
on_byte-Ready (got (c ∷ d ∷ _) io es) s out next ih h = absurd h
on_byte-Ready (failed es) s out next ih h = tt
on_byte-Ready exited s out next ih h = tt
on_byte-Ready (got (c ∷ []) io es) s out next ih (e, v, f) = by_test (c == b'\n')
  where
    by_test :
        (b : Bool)
        → Ready
            (elim b [ true ↦ line (out ++ (c ∷ [])) io es | false ↦ next es io (out ++ (c ∷ [])) ])
    by_test true = (v, f)
    by_test false = ih es io (out ++ (c ∷ [])) v f

readline_loop-Ready :
    (n : ℕ) (es : List Event) (io : Iobuffer) (out : Bytes)
    → IsValid io
    → All Fits es
    → Ready (readline_loop n es io out)
unfolding readline_loop
readline_loop-Ready zero es io out v f = (v, f)
readline_loop-Ready (suc n) es io out v f =
    on_byte-Ready (read es io 1) (text io es) out (readline_loop n) (readline_loop-Ready n)
      (read-Served es io v f)

pub readline-Ready :
    (es : List Event) (io : Iobuffer) (len : ℕ)
    → IsValid io
    → All Fits es
    → Ready (readline es io len)
unfolding readline
readline-Ready es io len v f = readline_loop-Ready len es io [] v f

-- A line and what is left behind it make up the text.
pub first_line-append :
    (n : ℕ) (out s l rest : Bytes) → first_line n out s ≡ some (l, rest) → l ++ rest ≡ out ++ s
unfolding first_line
first_line-append zero out s l rest h = cc
first_line-append (suc n) out [] l rest h = cc
first_line-append (suc n) out (c ∷ s) l rest h = elim (Bool-cases (c == b'\n')) [
  | inl e ↦ ground (arith, append_assoc out (c ∷ []) s)
  | inr e ↦
      first_line-append n (out ++ (c ∷ [])) s l rest (ground arith) ∙ append_assoc out (c ∷ []) s
]

pub first_line-less :
    (n : ℕ) (out s l rest : Bytes)
    → 0 < n
    → first_line n out s ≡ some (l, rest)
    → length rest < length s
unfolding first_line
first_line-less zero out s l rest p h = absurd (omega arith)
first_line-less (suc n) out [] l rest p h = cc
first_line-less (suc zero) out (c ∷ s) l rest p h = ground arith
first_line-less (suc (suc n)) out (c ∷ s) l rest p h = elim (Bool-cases (c == b'\n')) [
  | inl e ↦ ground arith
  | inr e ↦
      omega (arith, first_line-less (suc n) (out ++ (c ∷ [])) s l rest (omega arith) (ground arith))
]
