-- ===== src/Proxy/Matcher.antt =====
-- The matcher `search_pattern` of plugins/input_http/misc.c completes its text only where it occurs.
use robotica_movel.Prelude.{
  ℕ, zero, suc, ◌+◌, ◌<◌, Bool, true, false, not, [], ◌∷◌, ◌++◌, ◌≡◌, refl, sym, ap, ◌∙◌, arith,
  ◌==◌, ==_iff, Bool-cases, inl, inr, all, if◌then◌else◌, Bytes, length, append_assoc,
  length-append,
}
use mathlib.Core.Path.{subst}
use robotica_movel.CString.{contains, strstr}
use robotica_movel.CString.Laws.{starts_with-append}
use robotica_movel.Proxy.{char_at}

-- Whether the matcher, at place `k` of the text `p`, completes the text within `s`.
unfoldable pub completes : Bytes → ℕ → Bytes → Bool
unfolding char_at
completes p k [] = false
completes p k (c ∷ s) =
    let onward = completes p (k + 1) s in
    let again = completes p 0 s in
    if char_at p k == c then (if char_at p (k + 1) == 0 then true else onward) else again

contains-append : (s r t : Bytes) → contains r t ≡ true → contains (s ++ r) t ≡ true
unfolding contains strstr
contains-append [] r t h = h
contains-append (c ∷ s) r t h = ground (arith, contains-append s r t h)

contains_self : (p s : Bytes) → contains (p ++ s) p ≡ true
unfolding contains strstr
contains_self [] [] = rw (starts_with-append [] [])
contains_self [] (c ∷ s) = rw (starts_with-append [] (c ∷ s))
contains_self (c ∷ p) s = rw (starts_with-append (c ∷ p) s) refl

pub char_at-append :
    (pre suf : Bytes) (i j : ℕ) → i ≡ length pre + j → char_at (pre ++ suf) i ≡ char_at suf j
unfolding char_at
char_at-append [] suf i j e = ap (char_at suf) (omega arith)
char_at-append (c ∷ pre) suf zero j e = absurd (omega arith)
char_at-append (c ∷ pre) suf (suc i) j e = char_at-append pre suf i j (omega arith)

-- A value that the text does not hold is found nowhere in it.
pub char_at_other :
    (p : Bytes) (v k : ℕ) → 0 < v → all (λ c. not (c == v)) p ≡ true → (char_at p k == v) ≡ false
unfolding char_at
char_at_other [] v k h e = ground arith
char_at_other (c ∷ p) v zero h e = ground arith
char_at_other (c ∷ p) v (suc k) h e = char_at_other p v k h (ground arith)

nonzero_after :
    (pre : Bytes) (x y : ℕ) (ys : Bytes)
    → all (λ c. not (c == 0)) (pre ++ x ∷ y ∷ ys) ≡ true
    → (y == 0) ≡ false
nonzero_after [] x y ys h = ground arith
nonzero_after (c ∷ pre) x y ys h = nonzero_after pre x y ys (ground arith)

-- The matcher completes the text only where the text occurs.
module _ (y0 : ℕ) (ys0 : Bytes) (nonzero : all (λ c. not (c == 0)) (y0 ∷ ys0) ≡ true) where
  abbrev pub p : Bytes
  p = y0 ∷ ys0

  pub completes_now :
      (k c : ℕ) (s : Bytes)
      → (char_at p k == c) ≡ true
      → (char_at p (k + 1) == 0) ≡ true
      → completes p k (c ∷ s) ≡ true
  unfolding completes
  completes_now k c s e f = rw (e, f) refl

  pub completes_onward :
      (k c : ℕ) (s : Bytes)
      → (char_at p k == c) ≡ true
      → (char_at p (k + 1) == 0) ≡ false
      → completes p k (c ∷ s) ≡ completes p (k + 1) s
  unfolding completes
  completes_onward k c s e f = rw (e, f) refl

  pub completes_again :
      (k c : ℕ) (s : Bytes) → (char_at p k == c) ≡ false → completes p k (c ∷ s) ≡ completes p 0 s
  unfolding completes
  completes_again k c s e = rw e refl

  -- Where the matcher stands behind `pre` and completes the text in `s`, the text occurs.
  abbrev pub Found : Bytes → Type 0
  Found s =
      (pre : Bytes) (x : ℕ) (suf : Bytes) (k : ℕ)
      → p ≡ pre ++ x ∷ suf
      → k ≡ length pre
      → completes p k s ≡ true
      → contains (pre ++ s) p ≡ true

  pub char_here :
      (pre : Bytes) (x : ℕ) (suf : Bytes) (k : ℕ)
      → p ≡ pre ++ x ∷ suf
      → k ≡ length pre
      → char_at p k ≡ x
  unfolding char_at
  char_here pre x suf k e len =
      ap (λ t. char_at t k) e ∙ char_at-append pre (x ∷ suf) k 0 (omega arith)

  pub char_next :
      (pre : Bytes) (x y : ℕ) (ys : Bytes) (k : ℕ)
      → p ≡ pre ++ x ∷ y ∷ ys
      → k ≡ length pre
      → (char_at p (k + 1) == 0) ≡ false
  unfolding char_at
  char_next pre x y ys k e len =
      ap (λ v. v == 0)
        (ap (λ t. char_at t (k + 1)) e ∙ char_at-append pre (x ∷ y ∷ ys) (k + 1) 1 (omega arith))
      ∙ nonzero_after pre x y ys (subst (λ t. all (λ c. not (c == 0)) t ≡ true) e nonzero)

  pub char_end :
      (pre : Bytes) (x k : ℕ) → p ≡ pre ++ x ∷ [] → k ≡ length pre → (char_at p (k + 1) == 0) ≡ true
  unfolding char_at
  char_end pre x k e len =
      ap (λ v. v == 0)
        (ap (λ t. char_at t (k + 1)) e ∙ char_at-append pre (x ∷ []) (k + 1) 1 (omega arith))

  matched :
      (c : ℕ) (s : Bytes) (pre : Bytes) (x : ℕ) (suf : Bytes) (k : ℕ)
      → Found s
      → p ≡ pre ++ x ∷ suf
      → k ≡ length pre
      → (char_at p k == c) ≡ true
      → x ≡ c
      → completes p k (c ∷ s) ≡ true
      → contains (pre ++ c ∷ s) p ≡ true
  matched c s pre x [] k found e len hit same h =
      subst (λ t. contains t p ≡ true)
        (ap (λ t. t ++ s) (e ∙ ap (λ v. pre ++ v ∷ []) same) ∙ append_assoc pre (c ∷ []) s)
        (contains_self p s)
  matched c s pre x (y ∷ ys) k found e len hit same h =
      subst (λ t. contains t p ≡ true) (append_assoc pre (x ∷ []) s ∙ ap (λ v. pre ++ v ∷ s) same)
        (found (pre ++ x ∷ []) y ys (k + 1) (e ∙ sym (append_assoc pre (x ∷ []) (y ∷ ys)))
          (omega (arith, length-append pre (x ∷ [])))
          (sym (completes_onward k c s hit (char_next pre x y ys k e len)) ∙ h))

  pub completes-contains : (s : Bytes) → Found s
  completes-contains [] pre x suf k e len h = absurd (unfold completes in cc)
  completes-contains (c ∷ s) pre x suf k e len h = elim (Bool-cases (char_at p k == c)) [
    | inr miss ↦
        subst (λ t. contains t p ≡ true) (append_assoc pre (c ∷ []) s)
          (contains-append (pre ++ c ∷ []) s p
            (completes-contains s [] y0 ys0 0 refl refl (sym (completes_again k c s miss) ∙ h)))
    | inl hit ↦
        matched c s pre x suf k (completes-contains s) e len hit
          (sym (char_here pre x suf k e len) ∙ (==_iff (char_at p k) c).0 hit) h
  ]
