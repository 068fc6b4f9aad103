-- ===== src/CString.antt =====
-- The functions of the C library on strings that the program calls, on the bytes before the NUL.
pub mod Laws
pub mod Number
pub mod Digits
pub mod Scan
use robotica_movel.Prelude.{
  ℕ, zero, suc, ◌+◌, ◌-◌, Bool, true, false, not, ◌&&◌, ◌||◌, List, [], ◌∷◌, ◌++◌, Option, none,
  some, ltb, leb, ◌==◌, if◌then◌else◌, Bytes, length, take, drop,
}

-- `strcmp(s, t) == 0`
unfoldable pub str_eq : Bytes → Bytes → Bool
str_eq [] [] = true
str_eq (x ∷ xs) (y ∷ ys) = x == y && str_eq xs ys
str_eq _ _ = false

unfoldable pub starts_with : Bytes → Bytes → Bool
starts_with s [] = true
starts_with [] (y ∷ ys) = false
starts_with (x ∷ xs) (y ∷ ys) = x == y && starts_with xs ys

-- `strstr`: the text from the first occurrence on.
unfoldable pub strstr : Bytes → Bytes → Option Bytes
unfolding starts_with
strstr [] t = if starts_with [] t then some [] else none
strstr (x ∷ xs) t = let rest = strstr xs t in if starts_with (x ∷ xs) t then some (x ∷ xs) else rest

-- `strchr`, for a byte other than NUL.
unfoldable pub strchr : Bytes → ℕ → Option Bytes
strchr [] c = none
strchr (x ∷ xs) c = let rest = strchr xs c in if x == c then some (x ∷ xs) else rest

unfoldable pub is_some {ℓ} : {A : Type ℓ} → Option A → Bool
is_some none = false
is_some (some _) = true

-- `strstr(s, t) != NULL`
unfoldable pub contains : Bytes → Bytes → Bool
unfolding is_some strstr
contains s t = is_some (strstr s t)

unfoldable pub elem : ℕ → Bytes → Bool
elem c [] = false
elem c (x ∷ xs) = c == x || elem c xs

-- `strspn`
unfoldable pub strspn : Bytes → Bytes → ℕ
unfolding elem
strspn [] accept = 0
strspn (x ∷ xs) accept = if elem x accept then suc (strspn xs accept) else 0

-- the bytes that `strspn` counts, which `strncpy` and `strndup` copy
unfoldable pub span : Bytes → Bytes → Bytes
unfolding strspn
span s accept = take (strspn s accept) s

-- `tolower`, in the C locale
unfoldable pub to_lower : ℕ → ℕ
to_lower c = if leb b'A' c && leb c b'Z' then c + 32 else c

unfoldable pub starts_with_nocase : Bytes → Bytes → Bool
unfolding to_lower
starts_with_nocase s [] = true
starts_with_nocase [] (y ∷ ys) = false
starts_with_nocase (x ∷ xs) (y ∷ ys) = to_lower x == to_lower y && starts_with_nocase xs ys

-- `strcasestr(s, t) != NULL`
unfoldable pub contains_nocase : Bytes → Bytes → Bool
unfolding starts_with_nocase
contains_nocase [] t = starts_with_nocase [] t
contains_nocase (x ∷ xs) t = starts_with_nocase (x ∷ xs) t || contains_nocase xs t

-- A buffer of bytes read as a C string ends at its first NUL.
unfoldable pub c_string : Bytes → Bytes
c_string [] = []
c_string (x ∷ xs) = if x == 0 then [] else x ∷ c_string xs
