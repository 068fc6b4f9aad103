-- ===== src/FileOutput/Tests.antt =====
-- Runs of the ring buffer, and its theorems at concrete inputs.
use robotica_movel.GetOpt.{option, switch, parse_options}
use robotica_movel.CString.Number.{
  strtol_int, skip_space, read_signed, clamp_int, read_digits, is_digit, is_space, negate,
}
use robotica_movel.FileOutput.Options.{
  settings, init_options, option_cases, without_slash, with_file, checked, output_init,
}
use robotica_movel.FileOutput.Command.{
  Calls, Taken, out_parameters, take_command, generic_group, output_cmd,
}
use robotica_movel.FileOutput.Command.Outcome.{
  HasOutcome, output_cmd-HasOutcome, IsSafe, output_cmd-IsSafe,
}
use robotica_movel.Prelude.{
  ◌+◌, ◌-◌, ◌≤◌, true, false, List, [], ◌∷◌, ◌++◌, none, some, ◌≡◌, refl, ap, ◌∙◌, arith,
  if◌then◌else◌, Bytes, codes, length, drop, length-append,
}
use robotica_movel.Prelude.Int.{pos}
use robotica_movel.CString.{str_eq, is_some}
use robotica_movel.CString.Laws.{str_eq_refl}
use robotica_movel.CString.Number.{decimal_padded}
use robotica_movel.FileOutput.{
  FileSystem, Settings, Round, maintain_ringbuffer, Worker, worker_thread,
}
use robotica_movel.FileOutput.Ring.{
  FileSystemLaws, exceed_limit, maintain_ringbuffer-pictures, ring_stays_small,
}

-- A folder that holds pictures alone, the oldest first.
abbrev Folder : Type 0
Folder = List Bytes

unfoldable without : Bytes → Folder → Folder
without name [] = []
without name (x ∷ xs) = let rest = without name xs in if str_eq x name then xs else x ∷ rest

abbrev disk : FileSystem Folder
disk = record {
  scandir = λ s. some s;
  unlink = without;
  store = λ name data' s. s ++ name ∷ [];
  relink = λ old new s. s;
  system = λ command name s. s;
}

without_first : (name : Bytes) (names : Folder) → without name (name ∷ names) ≡ names
unfolding without
without_first name names = rw (str_eq_refl name) refl

disk_laws : FileSystemLaws disk (λ s. s)
disk_laws = record {
  scandir_gives = λ s. refl;
  unlink_takes = λ s name names e. ap (without name) e ∙ without_first name names;
  store_adds = λ s name data'. omega (arith, length-append s (name ∷ []));
  relink_adds = λ s old new. omega arith;
  system_adds = λ s command name. omega arith;
}

abbrev keep_two : Settings
keep_two = record {
  ringbuffer_size = pos 2;
  ringbuffer_exceed = pos 1;
  link_file_name = some (codes "last.jpg");
  command = none;
  records = false;
}

abbrev shot : Bytes → Round
shot date = record { frame = 255 ∷ 216 ∷ []; date = some date; opens = true; writes = true }

abbrev start : Worker disk
start = record { folder = codes "a" ∷ codes "b" ∷ codes "c" ∷ []; counter = 0; recorded = [] }

abbrev shots : List Round
shots = shot (codes "2020_01_01_00_00_01") ∷ shot (codes "2020_01_01_00_00_02") ∷ []

first_shot :
    (worker_thread disk keep_two (shot (codes "2020_01_01_00_00_00") ∷ []) start).0.folder
    ≡ codes "c" ∷ codes "2020_01_01_00_00_00_picture_000000000.jpg" ∷ []
unfolding worker_thread without str_eq decimal_padded
first_shot = refl

ring_stays_small_example :
    length (worker_thread disk keep_two (shot (codes "2020_01_01_00_00_00") ∷ shots) start).0.folder
    ≤ 2 + exceed_limit (pos 1)
ring_stays_small_example =
    ring_stays_small disk (λ s. s) disk_laws keep_two 2 refl refl
      (shot (codes "2020_01_01_00_00_00")) shots start refl (unfold worker_thread in refl)

maintain_ringbuffer-pictures_example :
    maintain_ringbuffer disk (pos 2) start.folder ≡ drop (length start.folder - 2) start.folder
maintain_ringbuffer-pictures_example =
    maintain_ringbuffer-pictures disk (λ s. s) disk_laws 2 start.folder

abbrev all_work : Calls
all_work = record { locks = true; has_memory = true; opens = true; written = some 4 }

abbrev no_room : Calls
no_room = record all_work { has_memory = false }

abbrev nothing_taken : Taken
nothing_taken = record { max_frame_size = 0; room = 0; overran = false; files = [] }

output_cmd-HasOutcome_example :
    HasOutcome (some 4) (codes "jpeg") (some (codes "a.jpg")) nothing_taken (
      output_cmd out_parameters all_work
        (codes "jpeg")
        take_command
        generic_group
        (some (codes "a.jpg"))
        nothing_taken)
output_cmd-HasOutcome_example =
    output_cmd-HasOutcome out_parameters all_work (codes "jpeg") take_command (some (codes "a.jpg"))
      nothing_taken

output_cmd-IsSafe_example :
    IsSafe
      (output_cmd out_parameters all_work
        (codes "jpeg")
        take_command
        generic_group
        (some (codes "a.jpg"))
        nothing_taken).0
output_cmd-IsSafe_example =
    output_cmd-IsSafe out_parameters all_work (codes "jpeg") take_command generic_group
      (some (codes "a.jpg")) nothing_taken refl (record { enough = omega arith; inside = refl })

-- After a command that finds no memory, the next one copies over the end of the buffer.
overrun_after_failure :
    (output_cmd out_parameters all_work
      (codes "jpeg")
      take_command
      generic_group
      (some (codes "a.jpg"))
      (output_cmd out_parameters no_room
        (codes "jpeg")
        take_command
        generic_group
        (some (codes "a.jpg"))
        nothing_taken).0).0.overran
    ≡ true
unfolding output_cmd
overrun_after_failure = refl

-- Five pictures in the folder "p".
output_init_run :
    output_init (λ f. true) (pos 1) (option 2 (codes "p/") ∷ option 6 (codes "5") ∷ [])
    ≡ some (settings (record init_options { folder = codes "p"; ringbuffer_size = pos 5 }), none)
unfolding output_init option_cases without_slash checked with_file switch parse_options strtol_int
    skip_space read_signed clamp_int read_digits is_digit is_space negate is_some
output_init_run = refl

-- A number of an input that is not there.
output_init_refuses : output_init (λ f. true) (pos 1) (option 11 (codes "1") ∷ []) ≡ none
unfolding output_init option_cases checked switch parse_options strtol_int skip_space read_signed
    clamp_int read_digits is_digit is_space negate
output_init_refuses = refl
