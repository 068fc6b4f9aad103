-- ===== src/Http/Escape/Buffer.antt =====
-- The buffer that `unescape` reads and writes: reads and writes at its two indices.
use robotica_movel.Prelude.{
  ℕ, ◌+◌, ◌*◌, [], ◌∷◌, ◌++◌, none, some, ◌≡◌, refl, sym, ap, ◌∙◌, arith, Bytes, length,
  append_assoc, length-append,
}
use robotica_movel.Http.Escape.{hex_char_to_int, get_at, set_at, put_low, put_high, put_escape}
use robotica_movel.Http.Escape.Decode.{Ends}

pub get_at-append :
    (xs : Bytes) (y : ℕ) (ys : Bytes) (n : ℕ) → n ≡ length xs → get_at (xs ++ y ∷ ys) n ≡ y
unfolding get_at
get_at-append [] y ys n e = rw e
get_at-append (x ∷ xs) y ys n e = rw e (get_at-append xs y ys (length xs) refl)

pub set_at-append :
    (xs : Bytes) (y : ℕ) (ys : Bytes) (n v : ℕ)
    → n ≡ length xs
    → set_at (xs ++ y ∷ ys) n v ≡ xs ++ v ∷ ys
unfolding set_at
set_at-append [] y ys n v e = rw e
set_at-append (x ∷ xs) y ys n v e = rw e (ap (◌∷◌ x) (set_at-append xs y ys (length xs) v refl))

-- The buffer in the loop: what is written, what is left over between the two indices, what is
-- still to be read, and the NUL.
abbrev pub buffer : Bytes → Bytes → Bytes → Bytes
buffer done junk rest = done ++ (junk ++ (rest ++ 0 ∷ []))

-- A write behind what is written takes the place of one byte of the gap, or of the byte just read.
pub record Written (done junk t : Bytes) (c dst v : ℕ) : Type 0 where
  pub junk' : Bytes
  pub is : set_at (done ++ (junk ++ c ∷ t)) dst v ≡ done ++ v ∷ (junk' ++ t)
  pub same_length : length junk' ≡ length junk

pub written : (done junk t : Bytes) (c dst v : ℕ) → dst ≡ length done → Written done junk t c dst v
written done [] t c dst v e = record {
  junk' = [];
  is = set_at-append done c t dst v e;
  same_length = refl;
}
written done (j ∷ js) t c dst v e = record {
  junk' = js ++ c ∷ [];
  is = set_at-append done j (js ++ c ∷ t) dst v e ∙ rw (append_assoc js);
  same_length = omega (arith, length-append js (c ∷ []));
}

pub regroup : (done ys : Bytes) (v : ℕ) → done ++ v ∷ ys ≡ (done ++ v ∷ []) ++ ys
regroup done ys v = rw append_assoc

pub read_src :
    (done junk rest : Bytes) (c src : ℕ)
    → src ≡ length done + length junk
    → get_at (buffer done junk (c ∷ rest)) src ≡ c
read_src done junk rest c src e =
    ap (λ b. get_at b src) (sym (append_assoc done junk (c ∷ rest ++ 0 ∷ [])))
    ∙ get_at-append (done ++ junk) c (rest ++ 0 ∷ []) src (omega (arith, length-append done junk))

pub finish :
    (done junk : Bytes) (dst : ℕ)
    → dst ≡ length done
    → Ends (some []) done (some (set_at (buffer done junk []) dst 0))
finish done [] dst e = ([], ap some (set_at-append done 0 [] dst 0 e))
finish done (j ∷ js) dst e = (js ++ 0 ∷ [], ap some (set_at-append done j (js ++ 0 ∷ []) dst 0 e))

-- The digits of an escape are read behind the gap, also after the write of the first half.
pub read_next :
    (done junk rest : Bytes) (v h l n : ℕ)
    → n ≡ length done + length junk + 2
    → get_at (done ++ v ∷ (junk ++ (h ∷ l ∷ rest))) n ≡ l
read_next done junk rest v h l n e =
    ap (λ b. get_at b n)
      (ap (λ t. done ++ v ∷ t) (sym (append_assoc junk (h ∷ []) (l ∷ rest)))
        ∙ sym (append_assoc done (v ∷ (junk ++ h ∷ [])) (l ∷ rest)))
    ∙ get_at-append (done ++ v ∷ (junk ++ h ∷ [])) l rest n
        (omega (arith, length-append done (v ∷ (junk ++ h ∷ [])), length-append junk (h ∷ [])))

pub read_first :
    (done junk rest : Bytes) (c h n : ℕ)
    → n ≡ length done + length junk + 1
    → get_at (done ++ (junk ++ (c ∷ h ∷ rest))) n ≡ h
read_first done junk rest c h n e =
    ap (λ b. get_at b n)
      (ap (λ t. done ++ t) (sym (append_assoc junk (c ∷ []) (h ∷ rest)))
        ∙ sym (append_assoc done (junk ++ c ∷ []) (h ∷ rest)))
    ∙ get_at-append (done ++ (junk ++ c ∷ [])) h rest n
        (omega (arith, length-append done (junk ++ c ∷ []), length-append junk (c ∷ [])))

-- `set_at` and `get_at` at the place just written.
pub rewrite_dst :
    (done ys : Bytes) (v lo dst : ℕ)
    → dst ≡ length done
    → put_low (done ++ v ∷ ys) dst (some lo) ≡ some (done ++ (v + lo) ∷ ys)
unfolding put_low
rewrite_dst done ys v lo dst e =
    ap (λ x. some (set_at (done ++ v ∷ ys) dst (x + lo))) (get_at-append done v ys dst e)
    ∙ ap some (set_at-append done v ys dst (v + lo) e)

module _ (done junk t : Bytes) (c h l src dst : ℕ) (at_dst : dst ≡ length done)
    (at_src : src ≡ length done + length junk) where
  -- The buffer before an escape: `l` is the byte behind the first digit, which may be the NUL.
  abbrev pub before : Bytes
  before = done ++ (junk ++ c ∷ h ∷ l ∷ t)

  pub put_escape-high : put_escape before src dst ≡ put_high before src dst (hex_char_to_int h)
  unfolding put_escape
  put_escape-high =
      ap (λ x. put_high before src dst (hex_char_to_int x))
        (read_first done junk (l ∷ t) c h (src + 1) (omega arith))

  -- What the escape leaves in the buffer when both digits are good, and `none` when one is not.
  pub record Escaped (hi : ℕ) : Type 0 where
    pub gap : Bytes
    pub low_good :
        (lo : ℕ)
        → hex_char_to_int l ≡ some lo
        → put_high before src dst (some hi) ≡ some (done ++ (hi * 16 + lo) ∷ (gap ++ t))
    pub low_bad : hex_char_to_int l ≡ none → put_high before src dst (some hi) ≡ none
    pub gap_length : length gap ≡ length junk + 2

  pub escape_lem : (hi : ℕ) → Escaped hi
  unfolding put_high
  escape_lem hi =
      let w : Written done junk (h ∷ l ∷ t) c dst (hi * 16) =
        written done junk (h ∷ l ∷ t) c dst (hi * 16) at_dst in
      let after : Bytes = done ++ (hi * 16) ∷ (w.junk' ++ h ∷ l ∷ t) in
      let low : put_high before src dst (some hi) ≡ put_low after dst (hex_char_to_int l) =
        ap (λ b. put_low b dst (hex_char_to_int (get_at b (src + 2)))) w.is
        ∙ ap (λ x. put_low after dst (hex_char_to_int x))
            (read_next done w.junk' t (hi * 16) h l (src + 2) (omega (arith, w.same_length))) in
      record {
        gap = w.junk' ++ h ∷ l ∷ [];
        low_good = λ lo e.
            low
            ∙ ap (put_low after dst) e
            ∙ rewrite_dst done (w.junk' ++ h ∷ l ∷ t) (hi * 16) lo dst at_dst
            ∙ rw (append_assoc w.junk');
        low_bad = λ e. low ∙ ap (put_low after dst) e ∙ unfold put_low in refl;
        gap_length = omega (arith, length-append w.junk' (h ∷ l ∷ []), w.same_length);
      }
