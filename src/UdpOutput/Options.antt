-- ===== src/UdpOutput/Options.antt =====
-- plugins/output_udp/output_udp.c, `output_init`.
use robotica_movel.Prelude.{List, [], ◌∷◌, Option, none, some, if◌then◌else◌, Bytes, codes}
use robotica_movel.Prelude.Int.{ℤ, pos, ltb_ℤ}
use robotica_movel.CString.Number.{strtol_int}
use robotica_movel.GetOpt.{Parsed, refuses, parse_options}
use robotica_movel.FileOutput.Options.{without_slash}

pub record Options : Type 0 where
  pub folder : Bytes
  pub delay : ℤ
  pub command : Option Bytes
  pub port : ℤ
  pub input_number : ℤ

abbrev pub init_options : Options
init_options = record {
  folder = codes "/tmp";
  delay = pos 0;
  command = none;
  port = pos 0;
  input_number = pos 0;
}

unfoldable pub option_cases : Bytes → List (Options → Option Options)
option_cases a =
    refuses
    ∷ refuses
    ∷ (λ o. some (record o { folder = without_slash a }))
    ∷ (λ o. some (record o { folder = without_slash a }))
    ∷ (λ o. some (record o { delay = strtol_int a }))
    ∷ (λ o. some (record o { delay = strtol_int a }))
    ∷ (λ o. some (record o { command = some a }))
    ∷ (λ o. some (record o { command = some a }))
    ∷ (λ o. some (record o { port = strtol_int a }))
    ∷ (λ o. some (record o { port = strtol_int a }))
    ∷ (λ o. some (record o { input_number = strtol_int a }))
    ∷ (λ o. some (record o { input_number = strtol_int a }))
    ∷ []

unfoldable pub checked : ℤ → Option Options → Option Options
checked incnt none = none
checked incnt (some o) = if ltb_ℤ o.input_number incnt then some o else none

-- With the number of the inputs; none is the return value 1.
unfoldable pub output_init : ℤ → List Parsed → Option Options
output_init incnt ps = checked incnt (parse_options option_cases ps (some init_options))
