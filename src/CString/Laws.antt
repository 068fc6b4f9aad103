-- ===== src/CString/Laws.antt =====
-- Laws of the string functions.
use robotica_movel.Prelude.{
  ℕ, Bool, true, ◌&&◌, ◌||◌, [], ◌∷◌, ◌++◌, ◌≡◌, refl, ap, ◌∙◌, ◌↔◌, arith, Bytes, all, leb, ◌==◌,
  ==_iff, Bool-cases, inl, inr,
}
use robotica_movel.CString.{str_eq, starts_with, elem, strspn, span}

pub str_eq_iff : (s t : Bytes) → (str_eq s t ≡ true) ↔ (s ≡ t)
unfolding str_eq
str_eq_iff (x ∷ s) (y ∷ t) = ground (arith, str_eq_iff s t)
str_eq_iff _ _ = ground arith

pub str_eq_refl : (s : Bytes) → str_eq s s ≡ true
str_eq_refl s = (str_eq_iff s s).1 refl

-- Every byte of the span is one that is accepted.
pub all-span : (s accept : Bytes) → all (λ c. elem c accept) (span s accept) ≡ true
unfolding span strspn
all-span [] accept = refl
all-span (x ∷ xs) accept = ground (arith, all-span xs accept)

pub starts_with-append : (t s : Bytes) → starts_with (t ++ s) t ≡ true
unfolding starts_with
starts_with-append [] s = refl
starts_with-append (x ∷ t) s = ground (arith, starts_with-append t s)

-- Letters and digits, by their ranges.
abbrev pub is_alphanumeric : ℕ → Bool
is_alphanumeric c = (leb 97 c && leb c 122) || ((leb 65 c && leb c 90) || (leb 48 c && leb c 57))

elem-true : (p : ℕ → Bool) (c : ℕ) (s : Bytes) → all p s ≡ true → elem c s ≡ true → p c ≡ true
unfolding elem
elem-true p c [] h e = absurd cc
elem-true p c (x ∷ s) h e = elim (Bool-cases (c == x)) [
  | inl q ↦ ap p ((==_iff c x).0 q) ∙ first h
  | inr q ↦ elem-true p c s (ground (arith, h)) (ground (arith, e, q))
]
  where
    first : (p x && all p s) ≡ true → p x ≡ true
    first k = ground arith

-- A text over accepted bytes has a property that each of them has.
pub all-elem :
    (p : ℕ → Bool) (accept s : Bytes)
    → all p accept ≡ true
    → all (λ c. elem c accept) s ≡ true
    → all p s ≡ true
all-elem p accept [] h e = refl
all-elem p accept (c ∷ s) h e =
    let here = elem-true p c accept h (ground (arith, e)) in
    let rest = all-elem p accept s h (ground (arith, e)) in ground (arith, here, rest)
