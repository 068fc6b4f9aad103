-- ===== src/CString/Digits.antt =====
-- What `%d` and `%06d` write are digits.
use robotica_movel.Prelude.{
  ℕ, zero, suc, ◌+◌, ◌-◌, ◌/◌, ◌%◌, ◌≤◌, ◌<◌, [], ◌∷◌, arith, ltb, Bool-cases, inl, inr, length,
  replicate, All, All-append, length-append,
}
use robotica_movel.CString.Number.{decimal_fuel, decimal, decimal_padded}

abbrev pub IsDigit : ℕ → Type 0
IsDigit c = (48 ≤ c) × (c ≤ 57)

pub decimal_fuel-All : (f n : ℕ) → All IsDigit (decimal_fuel f n)
unfolding decimal_fuel
decimal_fuel-All zero n = tt
decimal_fuel-All (suc f) n = elim (Bool-cases (ltb n 10)) [
  | inl e ↦ rw e ((omega arith, ground arith), tt)
  | inr e ↦
      rw e (All-append IsDigit _ _ (decimal_fuel-All f (n / 10)) ((omega arith, omega arith), tt))
]

decimal_fuel_some : (f n : ℕ) → 0 < length (decimal_fuel (suc f) n)
unfolding decimal_fuel
decimal_fuel_some f n = elim (Bool-cases (ltb n 10)) [
  | inl e ↦ rw e (omega arith)
  | inr e ↦ rw e (omega (arith, length-append (decimal_fuel f (n / 10)) ((b'0' + n % 10) ∷ [])))
]

pub decimal-All : (n : ℕ) → All IsDigit (decimal n)
unfolding decimal
decimal-All n = decimal_fuel-All (suc n) n

pub decimal_some : (n : ℕ) → 0 < length (decimal n)
unfolding decimal
decimal_some n = decimal_fuel_some n n

zeros-All : (k : ℕ) → All IsDigit (replicate k b'0')
zeros-All zero = tt
zeros-All (suc k) = ((omega arith, omega arith), zeros-All k)

pub decimal_padded-All : (w n : ℕ) → All IsDigit (decimal_padded w n)
unfolding decimal_padded
decimal_padded-All w n = All-append IsDigit _ _ (zeros-All (w - length (decimal n))) (decimal-All n)

pub decimal_padded_some : (w n : ℕ) → 0 < length (decimal_padded w n)
unfolding decimal_padded
decimal_padded_some w n =
    omega
      (arith, length-append (replicate (w - length (decimal n)) b'0') (decimal n), decimal_some n)
