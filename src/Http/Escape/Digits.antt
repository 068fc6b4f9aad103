-- ===== src/Http/Escape/Digits.antt =====
-- The value of a hex digit, and that `hex_char_to_int` of plugins/output_http/httpd.c gives it.
use robotica_movel.Prelude.{
  ℕ, zero, suc, ◌≤◌, ◌<◌, Bool, true, false, ◌&&◌, [], ◌∷◌, Option, none, some, ◌≡◌, refl, sym, ap,
  ◌∙◌, arith, ltb, ◌==◌, ==_iff, Bool-cases, inl, inr, if◌then◌else◌, Bytes, codes, all,
}
use native.Mathlib.Decide.{ℕ_discrete}
use robotica_movel.Http.Escape.{hex_char_to_int}

-- The place of a digit in a text, counted from `n`.
unfoldable pub place : ℕ → ℕ → Bytes → Option ℕ
place n c [] = none
place n c (d ∷ ds) = let rest = place (suc n) c ds in if d == c then some n else rest

abbrev first_of : Option ℕ → Option ℕ → Option ℕ
first_of none other = other
first_of (some n) other = some n

abbrev small_digits : Bytes
small_digits = codes "0123456789abcdef"

abbrev capital_digits : Bytes
capital_digits = codes "0123456789ABCDEF"

-- Its place among the sixteen, written with small or with capital letters.
unfoldable pub hex_value : ℕ → Option ℕ
hex_value c = first_of (place 0 c small_digits) (place 0 c capital_digits)

place-none : (n c : ℕ) (ds : Bytes) → all (λ d. ltb d 103) ds ≡ true → 103 ≤ c → place n c ds ≡ none
unfolding place
place-none n c [] h k = refl
place-none n c (d ∷ ds) h k = rw (differs, place-none (suc n) c ds (ground (arith, h)) k) refl
  where
    differs : (d == c) ≡ false
    differs = ground (arith, h, k)

-- The two agree at the codes below `f`.
abbrev same : Option ℕ → Option ℕ → Bool
same none none = true
same (some a) (some b) = a == b
same _ _ = false

same-eq : (a b : Option ℕ) → same a b ≡ true → a ≡ b
same-eq none none h = refl
same-eq (some a) (some b) h = ap some ((==_iff a b).0 h)
same-eq none (some b) h = absurd cc
same-eq (some a) none h = absurd cc

unfoldable agree_below : ℕ → Bool
agree_below zero = true
agree_below (suc f) = same (hex_char_to_int f) (hex_value f) && agree_below f

agree_below_lem : (f c : ℕ) → agree_below f ≡ true → c < f → hex_char_to_int c ≡ hex_value c
unfolding agree_below
agree_below_lem zero c h lt = absurd (omega arith)
agree_below_lem (suc f) c h lt = elim (ℕ_discrete c f) [
  | yes e ↦
      ap hex_char_to_int e
      ∙ same-eq (hex_char_to_int f) (hex_value f) (ground (arith, h))
      ∙ ap hex_value (sym e)
  | no n ↦ agree_below_lem f c (ground (arith, h)) (omega (arith, n, lt))
]

agree_to_f : agree_below 103 ≡ true
unfolding agree_below hex_char_to_int hex_value place
agree_to_f = refl

above : (c : ℕ) → 103 ≤ c → hex_char_to_int c ≡ none
unfolding hex_char_to_int
above c h = ground (arith, h)

pub hex_char_to_int_lem : (c : ℕ) → hex_char_to_int c ≡ hex_value c
unfolding hex_value
hex_char_to_int_lem c = elim (Bool-cases (ltb c 103)) [
  | inl e ↦ agree_below_lem 103 c agree_to_f (ground (arith, e))
  | inr e ↦
      above c (ground (arith, e))
      ∙ sym (
          ap (λ o. first_of o (place 0 c capital_digits))
            (place-none 0 c small_digits refl (ground (arith, e)))
          ∙ place-none 0 c capital_digits refl (ground (arith, e)))
]
