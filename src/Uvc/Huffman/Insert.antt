-- ===== src/Uvc/Huffman/Insert.antt =====
-- plugins/input_uvc/v4l2uvc.c: what `memcpy_picture` makes of a picture.
use robotica_movel.Prelude.{
  ℕ, zero, suc, ◌+◌, ◌≤◌, ◌<◌, ◌≡◌, inl, inr, refl, sym, ap, ◌∙◌, Bool, true, false, [], ◌∷◌, ◌++◌,
  Option, some, ltb, leb, Bytes, take, drop, length, arith, if_cases, take-append-drop, take-append,
  length-append, length-take, Bool-cases, if_true, if_false,
}
use mathlib.Core.Path.{subst, ap₂}
use robotica_movel.Uvc.Huffman.{
  dht_data, is_marker, is_huffman_from, is_huffman, one_more, find_sof, insert_dht, copy_with,
  memcpy_picture,
}

abbrev IsDefined : {A : Type 0} → Option A → Type 0
IsDefined {A} o = (a : A) × (o ≡ some a)

-- 2051 bytes are enough for `is_huffman`.
is_huffman_from-IsDefined :
    (i : ℕ) (m : Bytes) → i ≤ 2049 → 2051 ≤ i + length m → IsDefined (is_huffman_from i m)
unfolding is_huffman_from
is_huffman_from-IsDefined i [] le enough = absurd (omega arith)
is_huffman_from-IsDefined i (a ∷ []) le enough = absurd (omega arith)
is_huffman_from-IsDefined i (a ∷ b ∷ s) le enough =
    if_cases IsDefined (is_marker 218 a b) (some false) _ (false, refl)
      (elim (Bool-cases (ltb 2048 i)) [
        | inl e ↦ subst IsDefined (sym (if_true _ _ e)) (false, refl)
        | inr e ↦ subst IsDefined (sym (if_false _ _ e)) (
            if_cases IsDefined (is_marker 196 a b) (some true) _ (true, refl)
              (is_huffman_from-IsDefined (suc i) (b ∷ s) (ground arith) (omega arith)))
      ])

-- SOF0 at the place `k`.
abbrev pub HasSof : Bytes → ℕ → Type 0
HasSof m k = (rest : Bytes) × (drop k m ≡ 255 ∷ 192 ∷ rest)

-- The first place of SOF0 below `n`, or `n`.
abbrev IsFound : ℕ → Bytes → Option ℕ → Type 0
IsFound n m o =
    (k : ℕ) × (o ≡ some k) × (k ≤ n) × (k < n → HasSof m k) × ((j : ℕ) → j < k → HasSof m j → ⊥)

marker_here : (a b : ℕ) (s : Bytes) → is_marker 192 a b ≡ true → HasSof (a ∷ b ∷ s) 0
marker_here a b s h = (s, ground arith)

no_marker : (a b : ℕ) (s : Bytes) → is_marker 192 a b ≡ false → HasSof (a ∷ b ∷ s) 0 → ⊥
no_marker a b s h (rest, e) = ground arith

find_sof-IsFound : (n : ℕ) (m : Bytes) → n + 2 ≤ length m → IsFound n m (find_sof n m)
unfolding find_sof
find_sof-IsFound n [] enough = absurd (omega arith)
find_sof-IsFound n (a ∷ []) enough = absurd (omega arith)
find_sof-IsFound zero (a ∷ b ∷ s) enough =
    (0, refl, omega arith, λ h. absurd (omega arith), λ j h. absurd (omega arith))
find_sof-IsFound (suc n) (a ∷ b ∷ s) enough = elim (Bool-cases (is_marker 192 a b)) [
  | inl e ↦ (0, if_true _ _ e, omega arith, λ h. marker_here a b s e, λ j h. absurd (omega arith))
  | inr e ↦
      let (k, q, le, found, before) = find_sof-IsFound n (b ∷ s) (omega arith) in
      (
        suc k,
        if_false _ _ e ∙ ap one_more q,
        omega arith,
        λ h. found (omega arith),
        λ j h. earlier k before e j h,
      )
]
  where
    earlier :
        (k : ℕ)
        → ((j : ℕ) → j < k → HasSof (b ∷ s) j → ⊥)
        → is_marker 192 a b ≡ false
        → (j : ℕ) → j < suc k
        → HasSof (a ∷ b ∷ s) j
        → ⊥
    earlier k before e zero h = no_marker a b s e
    earlier k before e (suc j) h = before j (omega arith)

-- What the three ways to copy leave of the picture `p`, which lies before `slack`: it has a table
-- before the scan; it has no SOF0, and nothing is copied; the tables stand before the first SOF0.
pub data IsCopy (p slack : Bytes) : Bytes → Type 0 where
  whole : is_huffman (p ++ slack) ≡ some true → IsCopy p slack p
  nothing :
      is_huffman (p ++ slack) ≡ some false
      → ((j : ℕ) → j < length p → HasSof (p ++ slack) j → ⊥)
      → IsCopy p slack []
  inserted :
      (front back : Bytes)
      → is_huffman (p ++ slack) ≡ some false
      → p ≡ front ++ back
      → HasSof (p ++ slack) (length front)
      → ((j : ℕ) → j < length front → HasSof (p ++ slack) j → ⊥)
      → IsCopy p slack (front ++ dht_data ++ back)

take-append_of_le : (k : ℕ) (p slack : Bytes) → k ≤ length p → take k (p ++ slack) ≡ take k p
take-append_of_le zero p slack le = refl
take-append_of_le (suc k) [] slack le = absurd (omega arith)
take-append_of_le (suc k) (a ∷ p) slack le = ap (◌∷◌ a) (take-append_of_le k p slack (omega arith))

module _ (p slack : Bytes) where
  insert_dht-IsCopy :
      is_huffman (p ++ slack) ≡ some false
      → IsFound (length p) (p ++ slack) (find_sof (length p) (p ++ slack))
      → (out : Bytes) × (insert_dht (length p) (p ++ slack) (find_sof (length p) (p ++ slack))
          ≡ some out)
        × IsCopy p slack out
  unfolding insert_dht
  insert_dht-IsCopy none_yet (k, e, le, found, before) = elim (Bool-cases (leb (length p) k)) [
    | inl all ↦ (
      [],
      ap (insert_dht (length p) (p ++ slack)) e ∙ if_true _ _ all,
      nothing none_yet (λ j h. before j (ground arith)),
    )
    | inr some_left ↦ (
      take k p ++ dht_data ++ drop k p,
      ap (insert_dht (length p) (p ++ slack)) e
          ∙ if_false _ _ some_left
          ∙ ap some (
              ap₂ (λ x y. x ++ dht_data ++ drop k y) (take-append_of_le k p slack le)
                (take-append p slack)),
      inserted (take k p) (drop k p) none_yet (sym (take-append-drop k p))
          (subst (HasSof (p ++ slack)) (sym length_front) (found (ground arith)))
          (λ j h. before j (omega (arith, length_front))),
    )
  ]
    where
      length_front : length (take k p) ≡ k
      length_front = omega (arith, length-take k p)

-- For a picture in memory that goes on for at least 2051 bytes behind it, memcpy_picture reads inside
-- the memory, and writes the picture as it is if is_huffman finds a table, nothing if there is none and
-- no SOF0, and otherwise the picture with the 420 bytes of the tables put in before its first SOF0.
pub memcpy_picture-IsCopy :
    (p slack : Bytes)
    → 2051 ≤ length slack
    → (out : Bytes) × (memcpy_picture (length p) (p ++ slack) ≡ some out) × IsCopy p slack out
unfolding memcpy_picture is_huffman copy_with
memcpy_picture-IsCopy p slack enough = by_test h.0 h.1
  where
    room : length (p ++ slack) ≡ length p + length slack
    room = length-append p slack

    h : IsDefined (is_huffman_from 0 (p ++ slack))
    h = is_huffman_from-IsDefined 0 (p ++ slack) (omega arith) (omega (arith, room))

    by_test :
        (b : Bool)
        → is_huffman_from 0 (p ++ slack) ≡ some b
        → (out : Bytes) × (copy_with (length p) (p ++ slack) (is_huffman_from 0 (p ++ slack))
            ≡ some out)
          × IsCopy p slack out
    by_test true e =
        (p, ap (copy_with (length p) (p ++ slack)) e ∙ ap some (take-append p slack), whole e)
    by_test false e =
        let (out, q, copy) =
          insert_dht-IsCopy p slack e
            (find_sof-IsFound (length p) (p ++ slack) (omega (arith, room))) in
        (out, ap (copy_with (length p) (p ++ slack)) e ∙ q, copy)
