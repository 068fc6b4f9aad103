-- ===== src/Http/Escape/Loop.antt =====
-- The loop of `unescape`, round by round, decodes the text that it has not read yet.
use robotica_movel.Prelude.{
  ℕ, zero, suc, ◌+◌, ◌*◌, ◌≤◌, ◌<◌, true, false, [], ◌∷◌, ◌++◌, Option, none, some, ◌≡◌, refl, sym,
  ap, ◌∙◌, ◌⊎◌, arith, ◌==◌, Bool-cases, Option-cases, inl, inr, Bytes, length, length-append,
}
use mathlib.Core.Path.{subst}
use robotica_movel.Http.Escape.{
  hex_char_to_int, get_at, set_at, put_high, put_escape, and_then, unescape_loop, unescape,
}
use robotica_movel.Http.Escape.Decode.{
  prepend, decode, decode-plain, decode-escape, Ends, ends-prepend,
}
use robotica_movel.Http.Escape.Buffer.{
  buffer, Written, written, regroup, read_src, finish, put_escape-high, Escaped, escape_lem,
}

-- One round of the loop, by what it reads.
module _ (left : ℕ) (buf : Bytes) (c src dst len : ℕ) (at_src : get_at buf src ≡ c) where
  plain_round :
      src < len
      → (c == b'%') ≡ false
      → unescape_loop (suc left) buf src dst len
        ≡ unescape_loop left (set_at buf dst c) (src + 1) (dst + 1) len
  unfolding unescape_loop
  plain_round h e = ground arith

  escape_round :
      src + 2 ≤ len
      → (c == b'%') ≡ true
      → unescape_loop (suc left) buf src dst len
        ≡ and_then (put_escape buf src dst) (λ b. unescape_loop left b (src + 3) (dst + 1) len)
  unfolding unescape_loop
  escape_round h e = ground arith

  cut_round :
      src < len
      → len < src + 2
      → (c == b'%') ≡ true
      → unescape_loop (suc left) buf src dst len ≡ none
  unfolding unescape_loop
  cut_round h k e = ground arith

end_round :
    (left : ℕ) (buf : Bytes) (src dst len : ℕ)
    → len ≤ src
    → unescape_loop left buf src dst len ≡ some (set_at buf dst 0)
unfolding unescape_loop
end_round zero buf src dst len h = refl
end_round (suc left) buf src dst len h = ground arith

abbrev LoopEnds : ℕ → Bytes → Type 0
LoopEnds left rest =
    (done junk : Bytes) (src dst len : ℕ)
    → dst ≡ length done
    → src ≡ length done + length junk
    → len ≡ src + length rest
    → Ends (decode rest) done (unescape_loop left (buffer done junk rest) src dst len)

ends_none :
    {o : Option Bytes} (done : Bytes) {r : Option Bytes} → o ≡ none → r ≡ none → Ends o done r
ends_none done e h = rw e h

loop_plain :
    (left c : ℕ) (cs : Bytes)
    → (c == b'%') ≡ false
    → LoopEnds left cs
    → LoopEnds (suc left) (c ∷ cs)
loop_plain left c cs e ih done junk src dst len hd hs hl =
    let w : Written done junk (cs ++ 0 ∷ []) c dst c =
      written done junk (cs ++ 0 ∷ []) c dst c hd in
    let step =
      plain_round left (buffer done junk (c ∷ cs)) c src dst len (read_src done junk cs c src hs)
        (omega arith) e in
    let same =
      step
      ∙ ap (λ b. unescape_loop left b (src + 1) (dst + 1) len)
          (w.is ∙ regroup done (w.junk' ++ (cs ++ 0 ∷ [])) c) in
    rw (decode-plain c cs e) (
      ends-prepend (decode cs) done c _ (
        subst (λ r. Ends (decode cs) (done ++ c ∷ []) r) (sym same)
          (ih (done ++ c ∷ []) w.junk' (src + 1) (dst + 1) len
            (omega (arith, length-append done (c ∷ [])))
            (omega (arith, length-append done (c ∷ []), w.same_length)) (omega arith))))

loop_cut : (left c : ℕ) → (c == b'%') ≡ true → LoopEnds (suc left) (c ∷ [])
unfolding decode
loop_cut left c e done junk src dst len hd hs hl =
    ends_none done (rw e) (
      cut_round left _ c src dst len (read_src done junk [] c src hs) (omega arith) (omega arith) e)

-- The value of an escape, once the value of its first digit is known.
loop_escape_bad :
    (left c h : ℕ) (cs : Bytes)
    → (c == b'%') ≡ true
    → decode (c ∷ h ∷ cs) ≡ none
    → ((done junk : Bytes) (src dst : ℕ)
        → dst ≡ length done
        → src ≡ length done + length junk
        → put_escape (buffer done junk (c ∷ h ∷ cs)) src dst ≡ none)
    → LoopEnds (suc left) (c ∷ h ∷ cs)
loop_escape_bad left c h cs e d p done junk src dst len hd hs hl = ends_none done d (
    escape_round left _ c src dst len (read_src done junk (h ∷ cs) c src hs) (omega arith) e
    ∙ ap (λ o. and_then o (λ b. unescape_loop left b (src + 3) (dst + 1) len))
        (p done junk src dst hd hs))

nul_is_no_digit : hex_char_to_int 0 ≡ none
unfolding hex_char_to_int
nul_is_no_digit = refl

loop_short : (left c h : ℕ) → (c == b'%') ≡ true → LoopEnds (suc left) (c ∷ h ∷ [])
loop_short left c h e = loop_escape_bad left c h [] e (unfold decode in rw e) bad
  where
    bad :
        (done junk : Bytes) (src dst : ℕ)
        → dst ≡ length done
        → src ≡ length done + length junk
        → put_escape (buffer done junk (c ∷ h ∷ [])) src dst ≡ none
    bad done junk src dst hd hs = elim (Option-cases (hex_char_to_int h)) [
      | inl n ↦
          put_escape-high done junk [] c h 0 src dst hd hs
          ∙ ap (put_high _ src dst) n
          ∙ unfold put_high in refl
      | inr (hi, n) ↦
          put_escape-high done junk [] c h 0 src dst hd hs
          ∙ ap (put_high _ src dst) n
          ∙ (escape_lem done junk [] c h 0 src dst hd hs hi).low_bad nul_is_no_digit
    ]

put_high_none :
    (done junk t : Bytes) (c h l src dst : ℕ)
    → dst ≡ length done
    → src ≡ length done + length junk
    → hex_char_to_int h ≡ none
    → put_escape (done ++ (junk ++ c ∷ h ∷ l ∷ t)) src dst ≡ none
unfolding put_high
put_high_none done junk t c h l src dst hd hs n =
    put_escape-high done junk t c h l src dst hd hs ∙ ap (put_high _ src dst) n

loop_bad_digit :
    (left c h l : ℕ) (cs : Bytes)
    → (c == b'%') ≡ true
    → (hex_char_to_int h ≡ none) ⊎ (hex_char_to_int l ≡ none)
    → LoopEnds (suc left) (c ∷ h ∷ l ∷ cs)
loop_bad_digit left c h l cs e bad_digit =
    loop_escape_bad left c h (l ∷ cs) e (no_text bad_digit)
      (λ done junk src dst hd hs. bad done junk src dst hd hs bad_digit)
  where
    no_text :
        (hex_char_to_int h ≡ none) ⊎ (hex_char_to_int l ≡ none) → decode (c ∷ h ∷ l ∷ cs) ≡ none
    no_text (inl n) = decode-escape c h l cs e ∙ rw n
    no_text (inr n) = elim (Option-cases (hex_char_to_int h)) [
      | inl m ↦ decode-escape c h l cs e ∙ rw m
      | inr (hi, m) ↦ decode-escape c h l cs e ∙ rw (m, n)
    ]

    bad :
        (done junk : Bytes) (src dst : ℕ)
        → dst ≡ length done
        → src ≡ length done + length junk
        → (hex_char_to_int h ≡ none) ⊎ (hex_char_to_int l ≡ none)
        → put_escape (buffer done junk (c ∷ h ∷ l ∷ cs)) src dst ≡ none
    bad done junk src dst hd hs (inl n) =
        put_high_none done junk (cs ++ 0 ∷ []) c h l src dst hd hs n
    bad done junk src dst hd hs (inr n) = elim (Option-cases (hex_char_to_int h)) [
      | inl m ↦ put_high_none done junk (cs ++ 0 ∷ []) c h l src dst hd hs m
      | inr (hi, m) ↦
          put_escape-high done junk (cs ++ 0 ∷ []) c h l src dst hd hs
          ∙ ap (put_high _ src dst) m
          ∙ (escape_lem done junk (cs ++ 0 ∷ []) c h l src dst hd hs hi).low_bad n
    ]

loop_escape :
    (left c h l hi lo : ℕ) (cs : Bytes)
    → (c == b'%') ≡ true
    → hex_char_to_int h ≡ some hi
    → hex_char_to_int l ≡ some lo
    → LoopEnds left cs
    → LoopEnds (suc left) (c ∷ h ∷ l ∷ cs)
loop_escape left c h l hi lo cs e eh el ih done junk src dst len hd hs hl =
    let x : Escaped done junk (cs ++ 0 ∷ []) c h l src dst hd hs hi =
      escape_lem done junk (cs ++ 0 ∷ []) c h l src dst hd hs hi in
    let v : ℕ = hi * 16 + lo in
    let step =
      escape_round left _ c src dst len (read_src done junk (h ∷ l ∷ cs) c src hs) (omega arith) e
      ∙ ap (λ o. and_then o (λ b. unescape_loop left b (src + 3) (dst + 1) len))
          (put_escape-high done junk (cs ++ 0 ∷ []) c h l src dst hd hs
            ∙ ap (put_high _ src dst) eh
            ∙ x.low_good lo el
            ∙ ap some (regroup done (x.gap ++ (cs ++ 0 ∷ [])) v)) in
    let text : decode (c ∷ h ∷ l ∷ cs) ≡ prepend v (decode cs) =
      decode-escape c h l cs e ∙ rw (eh, el) in
    rw text (
      ends-prepend (decode cs) done v _ (
        subst (λ r. Ends (decode cs) (done ++ v ∷ []) r) (sym step)
          (ih (done ++ v ∷ []) x.gap (src + 3) (dst + 1) len
            (omega (arith, length-append done (v ∷ [])))
            (omega (arith, length-append done (v ∷ []), x.gap_length)) (omega arith))))

unescape_loop-Ends : (left : ℕ) (rest : Bytes) → length rest ≤ left → LoopEnds left rest
unfolding decode
unescape_loop-Ends left [] h = λ done junk src dst len hd hs hl.
    subst (λ r. Ends (some []) done r)
      (sym (end_round left (buffer done junk []) src dst len (omega arith)))
      (finish done junk dst hd)
unescape_loop-Ends zero (c ∷ cs) h = absurd (omega arith)
unescape_loop-Ends (suc left) (c ∷ []) h = elim (Bool-cases (c == b'%')) [
  | inl e ↦ loop_cut left c e
  | inr e ↦ loop_plain left c [] e (unescape_loop-Ends left [] (omega arith))
]
unescape_loop-Ends (suc left) (c ∷ d ∷ []) h = elim (Bool-cases (c == b'%')) [
  | inl e ↦ loop_short left c d e
  | inr e ↦ loop_plain left c (d ∷ []) e (unescape_loop-Ends left (d ∷ []) (omega arith))
]
unescape_loop-Ends (suc left) (c ∷ d ∷ l ∷ cs) h = elim (Bool-cases (c == b'%')) [
  | inr e ↦ loop_plain left c (d ∷ l ∷ cs) e (unescape_loop-Ends left (d ∷ l ∷ cs) (omega arith))
  | inl e ↦ elim (Option-cases (hex_char_to_int d)) [
    | inl n ↦ loop_bad_digit left c d l cs e (inl n)
    | inr (hi, eh) ↦ elim (Option-cases (hex_char_to_int l)) [
      | inl n ↦ loop_bad_digit left c d l cs e (inr n)
      | inr (lo, el) ↦
          loop_escape left c d l hi lo cs e eh el (unescape_loop-Ends left cs (omega arith))
    ]
  ]
]

-- `unescape`, run over the one buffer that it reads and writes, fails exactly on the texts with an
-- escape that is cut off or has no two hex digits; on any other it leaves the decoded text, a NUL
-- behind it, at the front of the buffer.
pub unescape_refines : (s : Bytes) → Ends (decode s) [] (unescape s)
unfolding unescape
unescape_refines s =
    unescape_loop-Ends (length s) s (omega arith) [] [] 0 0 (length s) refl refl (omega arith)
