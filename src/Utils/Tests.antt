-- ===== src/Utils/Tests.antt =====
-- Runs of `parse_resolution_opt`, and its theorem at a concrete input.
use robotica_movel.Prelude.{arith, none, some, ◌≡◌, refl, ◌++◌, ◌∷◌, codes}
use robotica_movel.Prelude.Int.{pos, negsuc}
use robotica_movel.CString.{str_eq}
use robotica_movel.CString.Number.{decimal, is_digit}
use robotica_movel.CString.Scan.{scan_int}
use robotica_movel.Utils.{parse_resolution_opt, parse_resolution_opt-decimal}

named : parse_resolution_opt (λ z. z) (codes "VGA") ≡ some (pos 640, pos 480)
unfolding parse_resolution_opt str_eq
named = refl

parse_resolution_opt-decimal_example :
    parse_resolution_opt (λ z. z) (decimal 1296 ++ (b'x' ∷ (decimal 972 ++ codes " -f 5")))
    ≡ some (pos 1296, pos 972)
parse_resolution_opt-decimal_example =
    parse_resolution_opt-decimal (λ z. z) 1296 972 (codes " -f 5") (omega arith) (omega arith)
      (unfold is_digit in refl)

no_height : parse_resolution_opt (λ z. z) (codes "640x") ≡ none
unfolding parse_resolution_opt str_eq scan_int
no_height = refl

negative : parse_resolution_opt (λ z. z) (codes " -640x+480") ≡ some (negsuc 639, pos 480)
unfolding parse_resolution_opt str_eq scan_int
negative = refl
