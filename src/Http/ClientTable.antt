-- ===== src/Http/ClientTable.antt =====
-- The table of clients of plugins/output_http/httpd.c (`client_infos`), in builds with MANAGMENT.
use robotica_movel.Prelude.{
  ℕ, suc, ◌+◌, ◌/◌, Bool, true, false, ◌&&◌, List, [], ◌∷◌, ◌++◌, Option, none, some, ◌≡◌, refl,
  sym, ap, ◌∙◌, arith, Bool-cases, inl, inr, if◌then◌else◌, Bytes, length, take, take_all,
  take-append,
}
use robotica_movel.Prelude.Int.{ℤ, pos, negsuc, ◌+ℤ◌, ◌-ℤ◌, ◌*ℤ◌, ltb_ℤ}
use robotica_movel.CString.{str_eq}
use robotica_movel.CString.Laws.{str_eq_iff, str_eq_refl}
use robotica_movel.CString.Number.{negate}

-- `client_info`, with the two fields of `last_take_time`.
pub record ClientInfo : Type 0 where
  pub address : Bytes
  pub tv_sec : ℕ
  pub tv_usec : ℕ

abbrev pub after_first : Option ℕ → Option ℕ
after_first none = none
after_first (some i) = some (suc i)

-- The loop of `add_client`: the index of the entry with the address.
unfoldable pub index_of : Bytes → List ClientInfo → Option ℕ
unfolding str_eq
index_of address' [] = none
index_of address' (x ∷ xs) =
    let rest = index_of address' xs in
    if str_eq x.address address' then some 0 else after_first rest

-- `memset` of `last_take_time`
abbrev new_client : Bytes → ClientInfo
new_client address' = record { address = address'; tv_sec = 0; tv_usec = 0 }

unfoldable added : Bytes → List ClientInfo → Option ℕ → List ClientInfo × ℕ
added address' infos (some i) = (infos, i)
added address' infos none = (infos ++ new_client address' ∷ [], length infos)

-- `add_client`: the table, and the index of the entry that it returns.
unfoldable pub add_client : Bytes → List ClientInfo → List ClientInfo × ℕ
unfolding added index_of
add_client address' infos = added address' infos (index_of address' infos)

-- `/ 1000` of a `long`, which rounds towards 0.
unfoldable thousandth : ℤ → ℤ
thousandth (pos n) = pos (n / 1000)
thousandth (negsuc n) = negate ((n + 1) / 1000)

-- `check_client_status` for an entry of the table, at the time of the call.
unfoldable pub check_client_status : ℕ → ℕ → ClientInfo → Bool
unfolding thousandth ◌+ℤ◌ ◌-ℤ◌ ◌*ℤ◌ negate
check_client_status sec usec c =
    let msec = (pos sec -ℤ pos c.tv_sec) *ℤ pos 1000 +ℤ thousandth (pos usec -ℤ pos c.tv_usec) in
    ltb_ℤ msec (pos 1000) && ltb_ℤ (pos 0) msec

-- `update_client_timestamp`
unfoldable pub update_client_timestamp : ℕ → ℕ → ClientInfo → ClientInfo
update_client_timestamp sec usec c = record c { tv_sec = sec; tv_usec = usec }

-- No address stands twice in the table.
abbrev pub AreUnique : List ClientInfo → Type 0
AreUnique [] = Unit
AreUnique (x ∷ xs) = (index_of x.address xs ≡ none) × AreUnique xs

some_or_none : (i : ℕ) → ◌≡◌ {A = Option ℕ} (some i) none → ⊥
some_or_none i k = cc

true_or_false : true ≡ false → ⊥
true_or_false k = cc

after_first-none : (o : Option ℕ) → after_first o ≡ none → o ≡ none
after_first-none none h = refl
after_first-none (some i) h = absurd cc

-- The first entry has another address, and so have the rest.
index_of-none :
    (a : Bytes) (x : ClientInfo) (xs : List ClientInfo)
    → index_of a (x ∷ xs) ≡ none
    → (str_eq x.address a ≡ false) × (index_of a xs ≡ none)
unfolding index_of
index_of-none a x xs h = elim (Bool-cases (str_eq x.address a)) [
  | inl e ↦ absurd (some_or_none 0 (sym (rw e refl) ∙ h))
  | inr e ↦ (e, after_first-none (index_of a xs) (sym (rw e refl) ∙ h))
]

index_of-later :
    (a : Bytes) (x : ClientInfo) (xs : List ClientInfo)
    → str_eq x.address a ≡ false
    → index_of a (x ∷ xs) ≡ after_first (index_of a xs)
unfolding index_of
index_of-later a x xs e = rw e refl

index_of-here :
    (a : Bytes) (x : ClientInfo) (xs : List ClientInfo)
    → str_eq x.address a ≡ true
    → index_of a (x ∷ xs) ≡ some 0
unfolding index_of
index_of-here a x xs e = rw e refl

index_of-append :
    (a : Bytes) (xs : List ClientInfo)
    → index_of a xs ≡ none
    → index_of a (xs ++ new_client a ∷ []) ≡ some (length xs)
index_of-append a [] h = index_of-here a (new_client a) [] (str_eq_refl a)
index_of-append a (x ∷ xs) h =
    let (e, k) = index_of-none a x xs h in
    index_of-later a x (xs ++ new_client a ∷ []) e ∙ ap after_first (index_of-append a xs k)

str_eq_swap : (s t : Bytes) → str_eq s t ≡ false → str_eq t s ≡ false
str_eq_swap s t h = elim (Bool-cases (str_eq t s)) [
  | inr e ↦ e
  | inl e ↦ absurd (true_or_false (sym ((str_eq_iff s t).1 (sym ((str_eq_iff t s).0 e))) ∙ h))
]

-- An address that is not in the table is not in a longer one whose new entry has another address.
still_none :
    (b a : Bytes) (xs : List ClientInfo)
    → index_of b xs ≡ none
    → str_eq a b ≡ false
    → index_of b (xs ++ new_client a ∷ []) ≡ none
still_none b a [] h e = index_of-later b (new_client a) [] e ∙ (unfold index_of in refl)
still_none b a (x ∷ xs) h e =
    let (d, k) = index_of-none b x xs h in
    index_of-later b x (xs ++ new_client a ∷ []) d ∙ ap after_first (still_none b a xs k e)

append-AreUnique :
    (a : Bytes) (xs : List ClientInfo)
    → index_of a xs ≡ none
    → AreUnique xs
    → AreUnique (xs ++ new_client a ∷ [])
append-AreUnique a [] h u = (unfold index_of in refl, tt)
append-AreUnique a (x ∷ xs) h u =
    let (e, k) = index_of-none a x xs h in
    (still_none x.address a xs u.0 (str_eq_swap x.address a e), append-AreUnique a xs k u.1)

-- On a table without a repeated address, `add_client` leaves the entries in their places and no
-- address repeated, and a second call with the same address changes nothing and returns the same
-- entry.
pub add_client_lem :
    (a : Bytes) (infos : List ClientInfo)
    → AreUnique infos
    → AreUnique (add_client a infos).0
      × (take (length infos) (add_client a infos).0 ≡ infos)
      × (add_client a (add_client a infos).0 ≡ add_client a infos)
unfolding add_client
add_client_lem a infos u = by_index (index_of a infos) refl
  where
    by_index :
        (o : Option ℕ)
        → index_of a infos ≡ o
        → AreUnique (added a infos o).0
          × (take (length infos) (added a infos o).0 ≡ infos)
          × (added a (added a infos o).0 (index_of a (added a infos o).0) ≡ added a infos o)
    by_index (some i) e = (u, take_all (length infos) infos (omega arith), ap (added a infos) e)
    by_index none e = (
      append-AreUnique a infos e u,
      take-append infos (new_client a ∷ []),
      ap (added a (infos ++ new_client a ∷ [])) (index_of-append a infos e),
    )
