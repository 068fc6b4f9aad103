-- ===== src/Proxy/Quiet.antt =====
-- Texts that cannot end a header of the stream, by the mask tests of plugins/input_http/misc.c.
use robotica_movel.Prelude.{
  ℕ, ◌<◌, Bool, true, false, not, ◌&&◌, [], ◌∷◌, ◌++◌, ◌≡◌, refl, sym, ap, ◌∙◌, arith, ltb, Bytes,
  lt→ltb, ◌⊎◌, inl, inr, All, length,
}
use robotica_movel.Proxy.Window.{
  Window, slide, AreBytes, slide-AreBytes, may_end, may_be_cr, may_be_lf,
}

-- ASCII bytes behind a window, of which none may end a header.
unfoldable pub quiet : Window → Bytes → Bool
quiet w [] = true
quiet w (c ∷ s) = (ltb c 128 && not (may_end (slide w c))) && quiet (slide w c) s

unfoldable pub slides : Window → Bytes → Window
slides w [] = w
slides w (c ∷ s) = slides (slide w c) s

-- What the first byte of a quiet text gives.
pub record Quiet (w : Window) (c : ℕ) (s : Bytes) : Type 0 where
  pub ascii : c < 128
  pub goes_on : may_end (slide w c) ≡ false
  pub later : quiet (slide w c) s ≡ true

pub quiet-Quiet : (w : Window) (c : ℕ) (s : Bytes) → quiet w (c ∷ s) ≡ true → Quiet w c s
unfolding quiet
quiet-Quiet w c s h = parts (ltb c 128) (may_end (slide w c)) (quiet (slide w c) s) refl refl refl h
  where
    parts :
        (x y z : Bool)
        → ltb c 128 ≡ x
        → may_end (slide w c) ≡ y
        → quiet (slide w c) s ≡ z
        → ((x && not y) && z) ≡ true
        → Quiet w c s
    parts true false true e f g h = record { ascii = ground arith; goes_on = f; later = g }
    parts true false false e f g h = absurd cc
    parts true true z e f g h = absurd cc
    parts false y z e f g h = absurd cc

pub slides-AreBytes :
    (w : Window) (s : Bytes) → AreBytes w → quiet w s ≡ true → AreBytes (slides w s)
unfolding slides
slides-AreBytes w [] b h = b
slides-AreBytes w (c ∷ s) b h =
    let k = quiet-Quiet w c s h in
    slides-AreBytes (slide w c) s (slide-AreBytes w c b k.ascii) k.later

pub slides-append : (w : Window) (s t : Bytes) → slides w (s ++ t) ≡ slides (slides w s) t
unfolding slides
slides-append w [] t = refl
slides-append w (c ∷ s) t = slides-append (slide w c) s t

and_assoc : (a b c : Bool) → ((a && b) && c) ≡ (a && (b && c))
and_assoc true b c = refl
and_assoc false b c = refl

pub quiet-append :
    (w : Window) (s t : Bytes) → quiet w (s ++ t) ≡ (quiet w s && quiet (slides w s) t)
unfolding quiet slides
quiet-append w [] t = refl
quiet-append w (c ∷ s) t =
    ap (λ r. (ltb c 128 && not (may_end (slide w c))) && r) (quiet-append (slide w c) s t)
    ∙ sym (
        and_assoc (ltb c 128 && not (may_end (slide w c))) (quiet (slide w c) s)
          (quiet (slides (slide w c) s) t))

-- A byte with neither the digits of CR nor those of LF.
pub record IsPlain (c : ℕ) : Type 0 where
  pub no_cr : may_be_cr c ≡ false
  pub no_lf : may_be_lf c ≡ false

abbrev pub blank : Window
blank = record { oldest = 0; second = 0; third = 0; latest = 0 }

abbrev window : ℕ → ℕ → ℕ → ℕ → Window
window a b c d = record { oldest = a; second = b; third = c; latest = d }

starts : (x y z : Bool) → x ≡ false → ((x && y) && z) ≡ false
starts false y z h = refl
starts true y z h = absurd cc

four : (x y z v : Bool) → (y ≡ false) ⊎ ((z ≡ false) ⊎ (v ≡ false)) → ((x && y) && (z && v)) ≡ false
four false y z v h = refl
four true false z v h = refl
four true true false v h = refl
four true true true false h = refl
four true true true true h = ground arith

no_first : (a b c d : ℕ) → may_be_cr a ≡ false → may_end (window a b c d) ≡ false
no_first a b c d h = starts (may_be_cr a) (may_be_lf b) (may_be_cr c && may_be_lf d) h

no_second : (a b c d : ℕ) → may_be_lf b ≡ false → may_end (window a b c d) ≡ false
no_second a b c d h = four (may_be_cr a) (may_be_lf b) (may_be_cr c) (may_be_lf d) (inl h)

no_third : (a b c d : ℕ) → may_be_cr c ≡ false → may_end (window a b c d) ≡ false
no_third a b c d h = four (may_be_cr a) (may_be_lf b) (may_be_cr c) (may_be_lf d) (inr (inl h))

no_fourth : (a b c d : ℕ) → may_be_lf d ≡ false → may_end (window a b c d) ≡ false
no_fourth a b c d h = four (may_be_cr a) (may_be_lf b) (may_be_cr c) (may_be_lf d) (inr (inr h))

and_true : (a b : Bool) → ((a && true) && b) ≡ (a && b)
and_true true b = refl
and_true false b = refl

quiet_step :
    (w : Window) (c : ℕ) (s : Bytes)
    → may_end (slide w c) ≡ false
    → quiet w (c ∷ s) ≡ (ltb c 128 && quiet (slide w c) s)
unfolding quiet
quiet_step w c s h = rw h (and_true (ltb c 128) (quiet (slide w c) s))

-- Two windows that both go on, and agree behind the next byte.
quiet_agree :
    (w w' : Window) (c : ℕ) (s : Bytes)
    → may_end (slide w c) ≡ false
    → may_end (slide w' c) ≡ false
    → quiet (slide w c) s ≡ quiet (slide w' c) s
    → quiet w (c ∷ s) ≡ quiet w' (c ∷ s)
quiet_agree w w' c s h k e =
    quiet_step w c s h ∙ (ap (λ r. ltb c 128 && r) e ∙ sym (quiet_step w' c s k))

forget_oldest : (a a' b c d : ℕ) (s : Bytes) → quiet (window a b c d) s ≡ quiet (window a' b c d) s
unfolding quiet
forget_oldest a a' b c d [] = refl
forget_oldest a a' b c d (e ∷ s) = refl

forget_second :
    (a b c d : ℕ) (s : Bytes) → IsPlain b → quiet (window a b c d) s ≡ quiet (window 0 0 c d) s
forget_second a b c d [] p = unfold quiet in refl
forget_second a b c d (e ∷ s) p =
    quiet_agree (window a b c d) (window 0 0 c d) e s (no_first b c d e p.no_cr)
      (no_first 0 c d e refl) (forget_oldest b 0 c d e s)

forget_third :
    (a b c d : ℕ) (s : Bytes) → IsPlain c → quiet (window a b c d) s ≡ quiet (window 0 0 0 d) s
forget_third a b c d [] p = unfold quiet in refl
forget_third a b c d (e ∷ s) p =
    quiet_agree (window a b c d) (window 0 0 0 d) e s (no_second b c d e p.no_lf)
      (no_second 0 0 d e refl) (forget_second b c d e s p)

forget_latest : (a b c d : ℕ) (s : Bytes) → IsPlain d → quiet (window a b c d) s ≡ quiet blank s
forget_latest a b c d [] p = unfold quiet in refl
forget_latest a b c d (e ∷ s) p =
    quiet_agree (window a b c d) blank e s (no_third b c d e p.no_cr) (no_third 0 0 0 e refl)
      (forget_third b c d e s p)

-- A window that ends in a plain byte is as good as one of zeros.
pub quiet-blank : (w : Window) (s : Bytes) → IsPlain w.latest → quiet w s ≡ quiet blank s
quiet-blank w s p = forget_latest w.oldest w.second w.third w.latest s p

-- A plain ASCII byte.
abbrev pub IsPlainAscii : ℕ → Type 0
IsPlainAscii d = IsPlain d × (d < 128)

plain_first :
    (w : Window) (d : ℕ) (s : Bytes) → IsPlainAscii d → quiet w (d ∷ s) ≡ quiet (slide w d) s
plain_first w d s (p, h) =
    quiet_step w d s (no_fourth w.second w.third w.latest d p.no_lf)
    ∙ ap (λ r. r && quiet (slide w d) s) (lt→ltb d 128 h)

-- Plain ASCII bytes, one at least, are quiet in every window.
pub quiet_plain :
    (w : Window) (ds s : Bytes)
    → 0 < length ds
    → All IsPlainAscii ds
    → quiet w (ds ++ s) ≡ quiet blank s
quiet_plain w [] s h k = absurd (omega arith)
quiet_plain w (d ∷ []) s h k = plain_first w d s k.0 ∙ quiet-blank (slide w d) s k.0.0
quiet_plain w (d ∷ e ∷ ds) s h k =
    plain_first w d ((e ∷ ds) ++ s) k.0 ∙ quiet_plain (slide w d) (e ∷ ds) s (omega arith) k.1
