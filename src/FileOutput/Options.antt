-- ===== src/FileOutput/Options.antt =====
-- plugins/output_file/output_file.c, `output_init`.
use robotica_movel.Prelude.{
  Bool, List, [], ◌∷◌, ◌++◌, Option, none, some, ◌==◌, if◌then◌else◌, Bytes, codes,
}
use robotica_movel.Prelude.Int.{ℤ, pos, negsuc, ltb_ℤ}
use robotica_movel.CString.{is_some}
use robotica_movel.CString.Number.{strtol_int}
use robotica_movel.GetOpt.{Parsed, refuses, parse_options}
use robotica_movel.FileOutput.{Settings}

pub record Options : Type 0 where
  pub folder : Bytes
  pub delay : ℤ
  pub ringbuffer_size : ℤ
  pub ringbuffer_exceed : ℤ
  pub input_number : ℤ
  pub mjpg_file_name : Option Bytes
  pub link_file_name : Option Bytes
  pub command : Option Bytes

abbrev pub init_options : Options
init_options = record {
  folder = codes "/tmp";
  delay = pos 0;
  ringbuffer_size = negsuc 0;
  ringbuffer_exceed = pos 0;
  input_number = pos 0;
  mjpg_file_name = none;
  link_file_name = none;
  command = none;
}

-- A "/" at the end is cut off; of an empty text the code reads the byte before it.
unfoldable pub without_slash : Bytes → Bytes
without_slash [] = []
without_slash (c ∷ []) = if c == b'/' then [] else c ∷ []
without_slash (c ∷ d ∷ s) = c ∷ without_slash (d ∷ s)

unfoldable pub option_cases : Bytes → List (Options → Option Options)
option_cases a =
    refuses
    ∷ refuses
    ∷ (λ o. some (record o { folder = without_slash a }))
    ∷ (λ o. some (record o { folder = without_slash a }))
    ∷ (λ o. some (record o { delay = strtol_int a }))
    ∷ (λ o. some (record o { delay = strtol_int a }))
    ∷ (λ o. some (record o { ringbuffer_size = strtol_int a }))
    ∷ (λ o. some (record o { ringbuffer_size = strtol_int a }))
    ∷ (λ o. some (record o { ringbuffer_exceed = strtol_int a }))
    ∷ (λ o. some (record o { ringbuffer_exceed = strtol_int a }))
    ∷ (λ o. some (record o { input_number = strtol_int a }))
    ∷ (λ o. some (record o { input_number = strtol_int a }))
    ∷ (λ o. some (record o { mjpg_file_name = some a }))
    ∷ (λ o. some (record o { mjpg_file_name = some a }))
    ∷ (λ o. some (record o { link_file_name = some a }))
    ∷ (λ o. some (record o { link_file_name = some a }))
    ∷ (λ o. some (record o { command = some a }))
    ∷ (λ o. some (record o { command = some a }))
    ∷ []

-- The settings of the thread, and the file that it records to.
abbrev pub Ready : Type 0
Ready = Settings × Option Bytes

abbrev pub settings : Options → Settings
settings o = record {
  ringbuffer_size = o.ringbuffer_size;
  ringbuffer_exceed = o.ringbuffer_exceed;
  link_file_name = o.link_file_name;
  command = o.command;
  records = is_some o.mjpg_file_name;
}

unfoldable pub with_file : (Bytes → Bool) → Options → Option Bytes → Option Ready
with_file opens o none = some (settings o, none)
with_file opens o (some name) =
    let file = o.folder ++ b'/' ∷ name in if opens file then some (settings o, some file) else none

-- Behind the loop, with the number of the inputs; none is the return value 1.
unfoldable pub checked : (Bytes → Bool) → ℤ → Option Options → Option Ready
checked opens incnt none = none
checked opens incnt (some o) =
    if ltb_ℤ o.input_number incnt then with_file opens o o.mjpg_file_name else none

unfoldable pub output_init : (Bytes → Bool) → ℤ → List Parsed → Option Ready
output_init opens incnt ps = checked opens incnt (parse_options option_cases ps (some init_options))
