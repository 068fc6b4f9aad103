-- ===== src/Proxy/Window.antt =====
-- The mask tests of plugins/input_http/misc.c on a window of four bytes.
use robotica_movel.Prelude.{
  ℕ, ◌+◌, ◌*◌, ◌/◌, ◌%◌, ◌^◌, ◌≤◌, ◌<◌, min, Bool, true, false, ◌&&◌, ◌≡◌, refl, sym, ap, ◌∙◌,
  arith, leb, ◌==◌, ==_iff, Bool-cases, inl, inr,
}
use Prim.Native.Nat.{bit_and, bit_and-bitwise}
use mathlib.Core.Path.{subst}
use native.Mathlib.Nat.{div-div-eq-div-mul}
use robotica_movel.Proxy.{is_crlf, is_crlfcrlf, push_byte}

-- A number put together from the digits that the mask 0x0d0a picks, the lowest first.
abbrev picked : (e0 e1 e2 e3 e4 e5 e6 e7 e8 e9 e10 e11 : ℕ) → ℕ
picked e0 e1 e2 e3 e4 e5 e6 e7 e8 e9 e10 e11 =
    (((((((((((0 + min 1 e11) * 2 + min 1 e10) * 2 + min 0 e9) * 2 + min 1 e8) * 2 + min 0 e7) * 2
                            + min 0 e6)
                          * 2
                        + min 0 e5)
                      * 2
                    + min 0 e4)
                  * 2
                + min 1 e3)
              * 2
            + min 0 e2)
          * 2
        + min 1 e1)
      * 2
    + min 0 e0

least_sum :
    (m0 m1 m2 m3 m4 m5 m6 m7 m8 m9 m10 m11 : ℕ)
    → m0 ≤ 0
    → m1 ≤ 1
    → m2 ≤ 0
    → m3 ≤ 1
    → m4 ≤ 0
    → m5 ≤ 0
    → m6 ≤ 0
    → m7 ≤ 0
    → m8 ≤ 1
    → m9 ≤ 0
    → m10 ≤ 1
    → m11 ≤ 1
    → (((((((((((0 + m11) * 2 + m10) * 2 + m9) * 2 + m8) * 2 + m7) * 2 + m6) * 2 + m5) * 2 + m4) * 2
                    + m3)
                  * 2
                + m2)
              * 2
            + m1)
          * 2
        + m0
      ≡ 0x0d0a
    → (1 ≤ m1) × (1 ≤ m3) × (1 ≤ m8) × (1 ≤ m10) × (1 ≤ m11)
least_sum m0 m1 m2 m3 m4 m5 m6 m7 m8 m9 m10 m11 b0 b1 b2 b3 b4 b5 b6 b7 b8 b9 b10 b11 h =
    omega arith

picks : (e : ℕ) → 1 ≤ min 1 e → 1 ≤ e
picks e h = omega arith

-- All the digits of the mask show in the result only if they are set.
picked_all :
    (e0 e1 e2 e3 e4 e5 e6 e7 e8 e9 e10 e11 : ℕ)
    → picked e0 e1 e2 e3 e4 e5 e6 e7 e8 e9 e10 e11 ≡ 0x0d0a
    → (1 ≤ e1) × (1 ≤ e3) × (1 ≤ e8) × (1 ≤ e10) × (1 ≤ e11)
picked_all e0 e1 e2 e3 e4 e5 e6 e7 e8 e9 e10 e11 h =
    let s =
      least_sum (min 0 e0) (min 1 e1) (min 0 e2) (min 1 e3) (min 0 e4) (min 0 e5) (min 0 e6)
        (min 0 e7) (min 1 e8) (min 0 e9) (min 1 e10) (min 1 e11) (omega arith) (omega arith)
        (omega arith) (omega arith) (omega arith) (omega arith) (omega arith) (omega arith)
        (omega arith) (omega arith) (omega arith) (omega arith) h in
    (picks e1 s.0, picks e3 s.1, picks e8 s.2, picks e10 s.3, picks e11 s.4)

mask_digits :
    (v : ℕ)
    → bit_and 0x0d0a v
      ≡ picked
          ((v) % 2)
          ((v / 2) % 2)
          ((v / 2 / 2) % 2)
          ((v / 2 / 2 / 2) % 2)
          ((v / 2 / 2 / 2 / 2) % 2)
          ((v / 2 / 2 / 2 / 2 / 2) % 2)
          ((v / 2 / 2 / 2 / 2 / 2 / 2) % 2)
          ((v / 2 / 2 / 2 / 2 / 2 / 2 / 2) % 2)
          ((v / 2 / 2 / 2 / 2 / 2 / 2 / 2 / 2) % 2)
          ((v / 2 / 2 / 2 / 2 / 2 / 2 / 2 / 2 / 2) % 2)
          ((v / 2 / 2 / 2 / 2 / 2 / 2 / 2 / 2 / 2 / 2) % 2)
          ((v / 2 / 2 / 2 / 2 / 2 / 2 / 2 / 2 / 2 / 2 / 2) % 2)
mask_digits v = bit_and-bitwise 0x0d0a v

-- The digits of CR and of LF that tell them apart.
abbrev pub may_be_cr : ℕ → Bool
may_be_cr n = n % 2 == 1 && (n / 4 % 2 == 1 && n / 8 % 2 == 1)

abbrev pub may_be_lf : ℕ → Bool
may_be_lf n = n / 2 % 2 == 1 && n / 8 % 2 == 1

quarters :
    (v : ℕ)
    → (v / 2 / 2 / 2 ≡ v / 8)
      × (v / 2 / 2 / 2 / 2 / 2 / 2 / 2 / 2 ≡ v / 256)
      × (v / 2 / 2 / 2 / 2 / 2 / 2 / 2 / 2 / 2 / 2 ≡ v / 256 / 4)
      × (v / 2 / 2 / 2 / 2 / 2 / 2 / 2 / 2 / 2 / 2 / 2 ≡ v / 256 / 8)
quarters v =
    (omega arith, simp div-div-eq-div-mul, simp div-div-eq-div-mul, simp div-div-eq-div-mul)

is_odd : (n : ℕ) → 1 ≤ n % 2 → (n % 2 == 1) ≡ true
is_odd n h = (==_iff (n % 2) 1).1 (omega arith)

and_both : (a b : Bool) → a ≡ true → b ≡ true → (a && b) ≡ true
and_both a b h k = ground arith

-- A pair of bytes that passes the mask test may be CR and LF by these digits.
is_crlf-digits : (v : ℕ) → is_crlf v ≡ true → (may_be_cr (v / 256) ≡ true) × (may_be_lf v ≡ true)
unfolding is_crlf
is_crlf-digits v h =
    let s = picked_all _ _ _ _ _ _ _ _ _ _ _ _ (sym (mask_digits v) ∙ (==_iff _ _).0 h) in
    let q = quarters v in
    (
      and_both _ _ (is_odd (v / 256) (subst (λ x. 1 ≤ x % 2) q.1 s.2)) (
          and_both _ _ (is_odd (v / 256 / 4) (subst (λ x. 1 ≤ x % 2) q.2 s.3))
            (is_odd (v / 256 / 8) (subst (λ x. 1 ≤ x % 2) q.3 s.4))),
      and_both _ _ (is_odd (v / 2) s.0) (is_odd (v / 8) (subst (λ x. 1 ≤ x % 2) q.0 s.1)),
    )

-- The last four bytes, the oldest first.
pub record Window : Type 0 where
  pub oldest : ℕ
  pub second : ℕ
  pub third : ℕ
  pub latest : ℕ

abbrev pub slide : Window → ℕ → Window
slide w c = record { oldest = w.second; second = w.third; third = w.latest; latest = c }

abbrev pub value : Window → ℕ
value w = ((w.oldest * 256 + w.second) * 256 + w.third) * 256 + w.latest

pub record AreBytes (w : Window) : Type 0 where
  pub oldest_byte : w.oldest < 256
  pub second_byte : w.second < 256
  pub third_byte : w.third < 256
  pub latest_byte : w.latest < 256

pub slide-AreBytes : (w : Window) (c : ℕ) → AreBytes w → c < 128 → AreBytes (slide w c)
slide-AreBytes w c b h = ground arith

pub push_byte-value :
    (char_signed : Bool) (w : Window) (c : ℕ)
    → AreBytes w
    → c < 128
    → push_byte char_signed (value w) c ≡ value (slide w c)
unfolding push_byte
push_byte-value char_signed w c b h = rw not_negative (omega arith)
  where
    not_negative : (leb 128 c && char_signed) ≡ false
    not_negative = ground arith

-- Whether the window may end a header.
abbrev pub may_end : Window → Bool
may_end w = (may_be_cr w.oldest && may_be_lf w.second) && (may_be_cr w.third && may_be_lf w.latest)

-- The tests read one byte of the number.
cr_of_byte : (x n : ℕ) → n < 256 → may_be_cr (x * 256 + n) ≡ may_be_cr n
cr_of_byte x n h =
    let e : (x * 256 + n) % 2 ≡ n % 2 = omega arith in
    let g : (x * 256 + n) / 4 % 2 ≡ n / 4 % 2 = omega arith in
    let f : (x * 256 + n) / 8 % 2 ≡ n / 8 % 2 = omega arith in rw (e, g, f) refl

lf_of_byte : (x n : ℕ) → n < 256 → may_be_lf (x * 256 + n) ≡ may_be_lf n
lf_of_byte x n h =
    let e : (x * 256 + n) / 2 % 2 ≡ n / 2 % 2 = omega arith in
    let f : (x * 256 + n) / 8 % 2 ≡ n / 8 % 2 = omega arith in rw (e, f) refl

-- A pair of bytes at the end of a number.
pair_digits :
    (x h l : ℕ)
    → h < 256
    → l < 256
    → is_crlf ((x * 256 + h) * 256 + l) ≡ true
    → (may_be_cr h && may_be_lf l) ≡ true
pair_digits x h l hb lb e =
    let d = is_crlf-digits ((x * 256 + h) * 256 + l) e in
    let above : ((x * 256 + h) * 256 + l) / 256 ≡ x * 256 + h = omega arith in
    let c : may_be_cr h ≡ true = sym (cr_of_byte x h hb) ∙ (ap may_be_cr (sym above) ∙ d.0) in
    rw (c, sym (lf_of_byte (x * 256 + h) l lb) ∙ d.1) refl

and_left : (a b : Bool) → (a && b) ≡ true → a ≡ true
and_left a b h = ground arith

and_right : (a b : Bool) → (a && b) ≡ true → b ≡ true
and_right a b h = ground arith

not_both : true ≡ false → ⊥
not_both h = cc

-- Where the digits exclude it, the header goes on.
pub may_end-is_crlfcrlf :
    (w : Window) → AreBytes w → may_end w ≡ false → is_crlfcrlf (value w) ≡ false
unfolding is_crlfcrlf
may_end-is_crlfcrlf w b h = elim (Bool-cases (is_crlf (value w) && is_crlf (value w / 2 ^ 16))) [
  | inr e ↦ e
  | inl e ↦ absurd (
      not_both (
        sym (
          and_both _ _
            (pair_digits 0 w.oldest w.second b.oldest_byte b.second_byte
              (subst (λ x. is_crlf x ≡ true) (upper) (and_right _ _ e)))
            (pair_digits (w.oldest * 256 + w.second) w.third w.latest b.third_byte b.latest_byte
              (and_left _ _ e)))
        ∙ h))
]
  where
    upper : value w / 2 ^ 16 ≡ (0 * 256 + w.oldest) * 256 + w.second
    upper = omega (arith, b.latest_byte, b.third_byte)
