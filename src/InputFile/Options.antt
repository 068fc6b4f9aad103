-- ===== src/InputFile/Options.antt =====
-- plugins/input_file/input_file.c: `input_init` and `input_run`.
use robotica_movel.Prelude.{
  ℕ, Bool, true, false, List, [], ◌∷◌, ◌++◌, Option, none, some, ◌==◌, if◌then◌else◌, Bytes, codes,
}
use robotica_movel.GetOpt.{Parsed, refuses, parse_options}
use robotica_movel.InputFile.{Settings, ReadMode, new_files_only, existing_files}

-- `optarg[strlen(optarg)-1]`: for an empty text the byte `before` it.
unfoldable pub last_byte : ℕ → Bytes → ℕ
last_byte before [] = before
last_byte before (c ∷ s) = last_byte c s

unfoldable pub as_folder : ℕ → Bytes → Bytes
as_folder before s = if last_byte before s == 47 then s else s ++ codes "/"

-- `D` is double, and `atof` the function of the C library.
module _ (D : Type 0) (atof : Bytes → D) (one : D) where
  pub record Options : Type 0 where
    pub delay : D
    pub folder : Option Bytes
    pub filename : Option Bytes
    pub rm : Bool
    pub mode : ReadMode

  abbrev pub init_options : Options
  init_options = record {
    delay = one;
    folder = none;
    filename = none;
    rm = false;
    mode = new_files_only;
  }

  -- The switch: each option has a short and a long name.
  abbrev pub option_cases : ℕ → Bytes → List (Options → Option Options)
  option_cases before optarg =
      refuses
      ∷ refuses
      ∷ (λ o. some (record o { delay = atof optarg }))
      ∷ (λ o. some (record o { delay = atof optarg }))
      ∷ (λ o. some (record o { folder = some (as_folder before optarg) }))
      ∷ (λ o. some (record o { folder = some (as_folder before optarg) }))
      ∷ (λ o. some (record o { rm = true }))
      ∷ (λ o. some (record o { rm = true }))
      ∷ (λ o. some (record o { filename = some optarg }))
      ∷ (λ o. some (record o { filename = some optarg }))
      ∷ (λ o. some (record o { mode = existing_files }))
      ∷ (λ o. some (record o { mode = existing_files }))
      ∷ []

  -- "check for required parameters": the settings, with the descriptor that `input_run` gets, or an
  -- error.
  unfoldable pub with_folder : ℕ → Options → Option Bytes → Option Settings
  with_folder wd o none = none
  with_folder wd o (some folder) =
      some (record { folder = folder; filename = o.filename; rm = o.rm; mode = o.mode; wd = wd })

  unfoldable pub checked : ℕ → Option Options → Option Settings
  unfolding with_folder
  checked wd none = none
  checked wd (some o) = with_folder wd o o.folder

  unfoldable pub input_init : ℕ → ℕ → List Parsed → Option Settings
  unfolding checked parse_options
  input_init before wd ps = checked wd (parse_options (option_cases before) ps (some init_options))
