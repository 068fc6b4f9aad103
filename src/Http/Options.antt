-- ===== src/Http/Options.antt =====
-- plugins/output_http/output_http.c, `output_init`.
use robotica_movel.Prelude.{
  ℕ, ◌+◌, ◌-◌, ◌*◌, ◌/◌, ◌%◌, ◌^◌, Bool, true, false, List, [], ◌∷◌, Option, none, some, Bytes,
}
use robotica_movel.Prelude.Int.{ℤ, pos, negsuc}
use robotica_movel.CString.Number.{strtol_int}
use robotica_movel.GetOpt.{Parsed, refuses, parse_options}
use robotica_movel.InputFile.Options.{as_folder}

-- The fields of `config`; the port is in the order of the network.
pub record ServerOptions : Type 0 where
  pub port : ℕ
  pub hostname : Option Bytes
  pub credentials : Option Bytes
  pub www_folder : Option Bytes
  pub nocommands : Bool

-- The conversion to uint16_t
abbrev pub to_u16 : ℤ → ℕ
to_u16 (pos n) = n % 2 ^ 16
to_u16 (negsuc n) = 2 ^ 16 - 1 - n % 2 ^ 16

-- `htons`, on a machine with the low byte first
abbrev pub htons : ℕ → ℕ
htons n = n % 256 * 256 + n / 256

abbrev pub init_options : ServerOptions
init_options = record {
  port = htons 8080;
  hostname = none;
  credentials = none;
  www_folder = none;
  nocommands = false;
}

-- `before` is the byte before the text of the option.
unfoldable pub option_cases : ℕ → Bytes → List (ServerOptions → Option ServerOptions)
option_cases before a =
    refuses
    ∷ refuses
    ∷ (λ o. some (record o { port = htons (to_u16 (strtol_int a)) }))
    ∷ (λ o. some (record o { port = htons (to_u16 (strtol_int a)) }))
    ∷ (λ o. some (record o { hostname = some a }))
    ∷ (λ o. some (record o { hostname = some a }))
    ∷ (λ o. some (record o { credentials = some a }))
    ∷ (λ o. some (record o { credentials = some a }))
    ∷ (λ o. some (record o { www_folder = some (as_folder before a) }))
    ∷ (λ o. some (record o { www_folder = some (as_folder before a) }))
    ∷ (λ o. some (record o { nocommands = true }))
    ∷ (λ o. some (record o { nocommands = true }))
    ∷ []

-- None is the return value 1.
unfoldable pub output_init : ℕ → List Parsed → Option ServerOptions
output_init before ps = parse_options (option_cases before) ps (some init_options)
