-- ===== src/CString/Number.antt =====
-- `strtol` in base 10, `atoi`, and the decimal output of `printf`.
use robotica_movel.Prelude.{
  ℕ, zero, suc, ◌+◌, ◌-◌, ◌*◌, ◌/◌, ◌%◌, ◌^◌, Bool, ◌&&◌, ◌||◌, [], ◌∷◌, ◌++◌, ltb, leb, ◌==◌,
  if◌then◌else◌, Bytes, length, replicate,
}
use robotica_movel.Prelude.Int.{ℤ, pos, negsuc}

unfoldable pub is_digit : ℕ → Bool
is_digit c = leb b'0' c && leb c b'9'

-- `isspace`, in the C locale
unfoldable pub is_space : ℕ → Bool
is_space c = c == b' ' || (leb 9 c && leb c 13)

unfoldable pub skip_space : Bytes → Bytes
unfolding is_space
skip_space [] = []
skip_space (c ∷ cs) = let rest = skip_space cs in if is_space c then rest else c ∷ cs

-- the value of the digits in front, with what was read before them
unfoldable pub read_digits : ℕ → Bytes → ℕ
unfolding is_digit
read_digits acc [] = acc
read_digits acc (c ∷ cs) =
    let rest = read_digits (acc * 10 + (c - b'0')) cs in if is_digit c then rest else acc

unfoldable pub negate : ℕ → ℤ
negate zero = pos 0
negate (suc n) = negsuc n

unfoldable pub read_signed : Bytes → ℤ
unfolding read_digits negate
read_signed [] = pos 0
read_signed (c ∷ cs) =
    if c == b'-'
    then negate (read_digits 0 cs)
    else if c == b'+'
    then pos (read_digits 0 cs)
    else pos (read_digits 0 (c ∷ cs))

-- `MAX(MIN(strtol(s, NULL, 10), INT_MAX), INT_MIN)`. `strtol` itself stops at the bounds of `long`,
-- which lie no nearer to 0.
unfoldable pub clamp_int : ℤ → ℤ
clamp_int (pos n) = if ltb n (2 ^ 31) then pos n else pos (2 ^ 31 - 1)
clamp_int (negsuc n) = if ltb n (2 ^ 31) then negsuc n else negsuc (2 ^ 31 - 1)

unfoldable pub strtol_int : Bytes → ℤ
unfolding skip_space read_signed clamp_int
strtol_int s = clamp_int (read_signed (skip_space s))

-- The decimal digits of a number; one round of fuel for each digit.
unfoldable pub decimal_fuel : ℕ → ℕ → Bytes
decimal_fuel zero n = []
decimal_fuel (suc f) n =
    let rest = decimal_fuel f (n / 10) in
    if ltb n 10 then (b'0' + n) ∷ [] else rest ++ ((b'0' + n % 10) ∷ [])

-- `%d` of a number that is not negative
unfoldable pub decimal : ℕ → Bytes
unfolding decimal_fuel
decimal n = decimal_fuel (suc n) n

-- `%d`
unfoldable pub print_int : ℤ → Bytes
unfolding decimal
print_int (pos n) = decimal n
print_int (negsuc n) = b'-' ∷ decimal (suc n)

-- `%0wd` of a number that is not negative
unfoldable pub decimal_padded : ℕ → ℕ → Bytes
unfolding decimal
decimal_padded w n = replicate (w - length (decimal n)) b'0' ++ decimal n
