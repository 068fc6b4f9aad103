-- ===== src/CString/Scan.antt =====
-- `%d` of `sscanf`, and that it reads back what `%d` of `printf` writes.
use robotica_movel.Prelude.{
  ℕ, zero, suc, ◌+◌, ◌-◌, ◌*◌, ◌/◌, ◌%◌, ◌^◌, ◌<◌, true, false, [], ◌∷◌, ◌++◌, Option, none, some,
  ◌≡◌, refl, ap, ◌∙◌, arith, ltb, ◌==◌, Bool-cases, inl, inr, if◌then◌else◌, Bytes, length, All,
}
use robotica_movel.Prelude.Int.{ℤ, pos, negsuc}
use robotica_movel.CString.Number.{
  is_digit, is_space, skip_space, read_digits, negate, decimal_fuel, decimal,
}
use robotica_movel.CString.Digits.{IsDigit, decimal_fuel-All, decimal-All, decimal_some}

unfoldable pub after_digits : Bytes → Bytes
unfolding is_digit
after_digits [] = []
after_digits (c ∷ s) = let rest = after_digits s in if is_digit c then rest else c ∷ s

-- One digit at least.
unfoldable pub scan_digits : (ℕ → ℤ) → Bytes → Option (ℤ × Bytes)
unfolding is_digit read_digits after_digits
scan_digits signed [] = none
scan_digits signed (c ∷ s) =
    if is_digit c then some (signed (read_digits 0 (c ∷ s)), after_digits (c ∷ s)) else none

unfoldable pub scan_signed : Bytes → Option (ℤ × Bytes)
unfolding scan_digits negate
scan_signed [] = none
scan_signed (c ∷ s) =
    if c == b'-'
    then scan_digits negate s
    else if c == b'+'
    then scan_digits pos s
    else scan_digits pos (c ∷ s)

-- The number, of any size, and the text behind it, where there is one.
unfoldable pub scan_any : Bytes → Option (ℤ × Bytes)
unfolding skip_space scan_signed
scan_any s = scan_signed (skip_space s)

-- The `int` that is stored; the C standard leaves open what `sscanf` does with a number that an `int`
-- cannot hold, so that `wide` gives it.
unfoldable pub as_int : (ℤ → ℤ) → ℤ → ℤ
as_int wide (pos n) = if ltb n (2 ^ 31) then pos n else wide (pos n)
as_int wide (negsuc n) = if ltb n (2 ^ 31) then negsuc n else wide (negsuc n)

abbrev stored_int : (ℤ → ℤ) → Option (ℤ × Bytes) → Option (ℤ × Bytes)
stored_int wide none = none
stored_int wide (some (z, rest)) = some (as_int wide z, rest)

unfoldable pub scan_int : (ℤ → ℤ) → Bytes → Option (ℤ × Bytes)
unfolding scan_any as_int
scan_int wide s = stored_int wide (scan_any s)

digit_true : (c : ℕ) → IsDigit c → is_digit c ≡ true
unfolding is_digit
digit_true c h = ground arith

-- A text that does not go on with a digit.
abbrev pub StopsDigits : Bytes → Type 0
StopsDigits [] = Unit
StopsDigits (c ∷ s) = is_digit c ≡ false

read_digits-append :
    (acc : ℕ) (s t : Bytes)
    → All IsDigit s
    → read_digits acc (s ++ t) ≡ read_digits (read_digits acc s) t
unfolding read_digits
read_digits-append acc [] t h = refl
read_digits-append acc (c ∷ s) t h =
    rw (digit_true c h.0) (read_digits-append (acc * 10 + (c - b'0')) s t h.1)

read_digits_stops : (acc : ℕ) (t : Bytes) → StopsDigits t → read_digits acc t ≡ acc
unfolding read_digits
read_digits_stops acc [] h = refl
read_digits_stops acc (c ∷ t) h = rw h refl

after_digits-append : (s t : Bytes) → All IsDigit s → StopsDigits t → after_digits (s ++ t) ≡ t
unfolding after_digits
after_digits-append [] [] h k = refl
after_digits-append [] (c ∷ t) h k = rw k refl
after_digits-append (c ∷ s) t h k = rw (digit_true c h.0) (after_digits-append s t h.1 k)

read_digits-one : (acc d : ℕ) → d < 10 → read_digits acc ((b'0' + d) ∷ []) ≡ acc * 10 + d
unfolding read_digits is_digit
read_digits-one acc d h = ground arith

read_digits-decimal_fuel : (f n : ℕ) → n < f → read_digits 0 (decimal_fuel f n) ≡ n
unfolding decimal_fuel
read_digits-decimal_fuel zero n h = absurd (omega arith)
read_digits-decimal_fuel (suc f) n h = elim (Bool-cases (ltb n 10)) [
  | inl e ↦ rw e (read_digits-one 0 n (ground arith) ∙ omega arith)
  | inr e ↦ rw e (
      read_digits-append 0 (decimal_fuel f (n / 10)) ((b'0' + n % 10) ∷ [])
        (decimal_fuel-All f (n / 10))
      ∙ (read_digits-one (read_digits 0 (decimal_fuel f (n / 10))) (n % 10) (omega arith)
          ∙ (ap (λ x. x * 10 + n % 10) (read_digits-decimal_fuel f (n / 10) (ground arith))
              ∙ omega arith)))
]

-- The number that `%d` wrote, before a text that does not go on with a digit.
pub read_digits-decimal : (n : ℕ) (t : Bytes) → StopsDigits t → read_digits 0 (decimal n ++ t) ≡ n
unfolding decimal
read_digits-decimal n t h =
    read_digits-append 0 (decimal n) t (decimal-All n)
    ∙ (read_digits_stops (read_digits 0 (decimal n)) t h
        ∙ read_digits-decimal_fuel (suc n) n (omega arith))

-- A digit is no blank and no sign.
digit_first :
    (c : ℕ) → IsDigit c → (is_space c ≡ false) × ((c == b'-') ≡ false) × ((c == b'+') ≡ false)
unfolding is_space
digit_first c h = (ground arith, ground arith, ground arith)

scan_any-digits :
    (s t : Bytes)
    → 0 < length s
    → All IsDigit s
    → StopsDigits t
    → scan_any (s ++ t) ≡ some (pos (read_digits 0 (s ++ t)), t)
scan_any-digits [] t l h k = absurd (omega arith)
scan_any-digits (c ∷ s) t l h k =
    blank_free c (s ++ t) (digit_first c h.0).0
    ∙ (signless c (s ++ t) (digit_first c h.0).1 (digit_first c h.0).2 (digit_true c h.0)
        ∙ ap (λ r. some (pos (read_digits 0 ((c ∷ s) ++ t)), r))
            (after_digits-append (c ∷ s) t h k))
  where
    blank_free : (c : ℕ) (s : Bytes) → is_space c ≡ false → scan_any (c ∷ s) ≡ scan_signed (c ∷ s)
    blank_free c s e = unfold scan_any in unfold skip_space in rw e refl

    signless :
        (c : ℕ) (s : Bytes)
        → (c == b'-') ≡ false
        → (c == b'+') ≡ false
        → is_digit c ≡ true
        → scan_signed (c ∷ s) ≡ some (pos (read_digits 0 (c ∷ s)), after_digits (c ∷ s))
    signless c s e f g = unfold scan_signed in unfold scan_digits in rw (e, f, g) refl

as_int-pos : (wide : ℤ → ℤ) (n : ℕ) → n < 2 ^ 31 → as_int wide (pos n) ≡ pos n
unfolding as_int
as_int-pos wide n h = ground arith

-- `%d` reads back what `%d` wrote of an `int`.
pub scan_int-decimal :
    (wide : ℤ → ℤ) (n : ℕ) (t : Bytes)
    → n < 2 ^ 31
    → StopsDigits t
    → scan_int wide (decimal n ++ t) ≡ some (pos n, t)
unfolding scan_int
scan_int-decimal wide n t small h =
    ap (stored_int wide) (
      scan_any-digits (decimal n) t (decimal_some n) (decimal-All n) h
      ∙ ap (λ v. some (pos v, t)) (read_digits-decimal n t h))
    ∙ ap (λ z. some (z, t)) (as_int-pos wide n small)
