-- ===== src/Http/Reader/Progress.antt =====
-- Each line that `_readline` returns takes a byte at least from the connection.
use robotica_movel.Prelude.{
  ℕ, zero, suc, ◌-◌, ◌≤◌, ◌<◌, min, Bool, true, false, List, [], ◌∷◌, ◌++◌, ◌≡◌, refl, ap, arith,
  leb, ◌==◌, Bytes, length, drop, length-take,
}
use mathlib.Core.Path.{subst}
use robotica_movel.Http.Reader.{
  io_buffer, Iobuffer, Event, timeout, select_error, closed, arrived, ReadResult, got, failed,
  exited, copied, consume, refill, read_loop, read, LineResult, line, no_line, stopped, on_byte,
  readline_loop, readline, bytes_left,
}

-- A byte that `_read` hands over is no longer left.
abbrev Shrinks : ReadResult → ℕ → Type 0
Shrinks (got [] io es) n = Unit
Shrinks (got (c ∷ cs) io es) n = bytes_left es io < n
Shrinks (failed es) n = Unit
Shrinks exited n = Unit

length-copied : (io : Iobuffer) (n : ℕ) → length (copied io n) ≤ n
unfolding copied
length-copied io n = omega (arith, length-take n (drop (io_buffer - io.level) io.buffer))

-- The buffer before `select` is called: it handed over its byte, or it was empty.
Shrinks-now :
    (es : List Event) (io : Iobuffer) (out : Bytes)
    → length out ≤ min io.level 1
    → Shrinks (got out (consume io (min io.level 1)) es) (bytes_left es io)
unfolding bytes_left consume
Shrinks-now es io [] h = tt
Shrinks-now es io (c ∷ cs) h = omega arith

Shrinks-le : (r : ReadResult) (m n : ℕ) → m ≤ n → Shrinks r m → Shrinks r n
Shrinks-le (got [] io es) m n h s = tt
Shrinks-le (got (c ∷ cs) io es) m n h s = omega arith
Shrinks-le (failed es) m n h s = tt
Shrinks-le exited m n h s = tt

abbrev Rounds : List Event → Type 0
Rounds es = (io : Iobuffer) → Shrinks (read_loop es io [] 1) (bytes_left es io)

bytes_left-refill :
    (es : List Event) (bs : Bytes) (io : Iobuffer)
    → bytes_left es (refill bs) ≤ bytes_left (arrived bs ∷ es) io
unfolding bytes_left refill
bytes_left-refill es bs io = omega arith

-- What happens in a round that has handed over `out`.
read_loop_round :
    (e : Event) (es : List Event) (io : Iobuffer) (out : Bytes)
    → out ≡ copied io (min io.level 1)
    → Rounds es
    → Shrinks (read_loop (e ∷ es) io [] 1) (bytes_left (e ∷ es) io)
unfolding read_loop
read_loop_round e es io (c ∷ cs) h ih =
    let enough : leb 1 (suc (length cs)) ≡ true = ground arith in
    rw (← h) (
      rw enough (
        Shrinks-now (e ∷ es) io (c ∷ cs)
          (omega (arith, ap length h, length-copied io (min io.level 1)))))
read_loop_round timeout es io [] h ih = rw (← h) tt
read_loop_round select_error es io [] h ih = rw (← h) tt
read_loop_round closed es io [] h ih = rw (← h) tt
read_loop_round (arrived bs) es io [] h ih =
    rw (← h) (Shrinks-le _ _ _ (bytes_left-refill es bs io) (ih (refill bs)))

read_loop-Shrinks : (es : List Event) → Rounds es
read_loop-Shrinks [] io =
    unfold read_loop in Shrinks-now [] io _ (length-copied io (min io.level 1))
read_loop-Shrinks (e ∷ es) io = read_loop_round e es io _ refl (read_loop-Shrinks es)

read-Shrinks : (es : List Event) (io : Iobuffer) → Shrinks (read es io 1) (bytes_left es io)
unfolding read
read-Shrinks es io = read_loop-Shrinks es io

-- A line leaves fewer bytes than there were, if it has a byte.
abbrev LineShrinks : LineResult → ℕ → Type 0
LineShrinks (line l io es) n = bytes_left es io < n
LineShrinks no_line n = Unit
LineShrinks stopped n = Unit

on_byte-LineShrinks :
    (r : ReadResult) (m : ℕ) (out : Bytes) (next : List Event → Iobuffer → Bytes → LineResult)
    → ((es : List Event) (io : Iobuffer) (out : Bytes)
        → LineShrinks (next es io out) (suc (bytes_left es io)))
    → Shrinks r m
    → LineShrinks (on_byte r out next) m
unfolding on_byte
on_byte-LineShrinks (got [] io es) m out next ih h = tt
on_byte-LineShrinks (failed es) m out next ih h = tt
on_byte-LineShrinks exited m out next ih h = tt
on_byte-LineShrinks (got (c ∷ cs) io es) m out next ih h = by_test (c == b'\n')
  where
    later : (r : LineResult) → LineShrinks r (suc (bytes_left es io)) → LineShrinks r m
    later (line l io' es') s = omega arith
    later no_line s = tt
    later stopped s = tt

    by_test :
        (b : Bool)
        → LineShrinks
            (elim b [ true ↦ line (out ++ (c ∷ [])) io es | false ↦ next es io (out ++ (c ∷ [])) ])
            m
    by_test true = h
    by_test false = later (next es io (out ++ (c ∷ []))) (ih es io (out ++ (c ∷ [])))

readline_loop-LineShrinks :
    (n : ℕ) (es : List Event) (io : Iobuffer) (out : Bytes)
    → LineShrinks (readline_loop n es io out) (suc (bytes_left es io))
unfolding readline_loop
readline_loop-LineShrinks zero es io out = omega arith
readline_loop-LineShrinks (suc n) es io out =
    weaken (on_byte (read es io 1) out (readline_loop n)) (
      on_byte-LineShrinks (read es io 1) (bytes_left es io) out (readline_loop n)
        (readline_loop-LineShrinks n) (read-Shrinks es io))
  where
    weaken :
        (r : LineResult) → LineShrinks r (bytes_left es io) → LineShrinks r (suc (bytes_left es io))
    weaken (line l io' es') s = omega arith
    weaken no_line s = tt
    weaken stopped s = tt

-- A line takes a byte at least of those that are buffered or may arrive.
pub readline-less :
    (es : List Event) (io : Iobuffer) (len : ℕ) {l : Bytes} {io' : Iobuffer} {es' : List Event}
    → 0 < len
    → readline es io len ≡ line l io' es'
    → bytes_left es' io' < bytes_left es io
readline-less es io zero h e = absurd (omega arith)
readline-less es io (suc n) h e =
    subst (λ r. LineShrinks r (bytes_left es io)) e
      (unfold readline readline_loop in
        on_byte-LineShrinks (read es io 1) (bytes_left es io) [] (readline_loop n)
          (readline_loop-LineShrinks n) (read-Shrinks es io))
