-- ===== src/FileOutput/Command.antt =====
-- `output_cmd` of plugins/output_file/output_file.c, the command that stores one picture.
pub mod Outcome
use robotica_movel.Prelude.{
  ℕ, ◌+◌, ◌^◌, ◌≤◌, Bool, true, false, ◌&&◌, ◌||◌, List, [], ◌∷◌, ◌++◌, Option, none, some, ◌≡◌,
  refl, ap, arith, ltb, ◌==◌, if◌then◌else◌, inl, inr, ◌⊎◌, Bytes, length, take,
}
use robotica_movel.Prelude.Int.{ℤ, pos, negsuc}

-- OUT_FILE_CMD_TAKE and OUT_FILE_CMD_FILENAME
abbrev pub take_command : ℕ
take_command = 1

abbrev pub filename_command : ℕ
filename_command = 2

-- IN_CMD_GENERIC
abbrev pub generic_group : ℕ
generic_group = 0

-- An entry of `out_parameters`: the fields that are compared.
pub record OutControl : Type 0 where
  pub id : ℕ
  pub group : ℕ

-- The entries that `output_init` makes.
abbrev pub out_parameters : List OutControl
out_parameters =
    record { id = take_command; group = generic_group }
    ∷ record { id = filename_command; group = generic_group }
    ∷ []

-- What the calls of a command report: whether the mutex is locked, `realloc` finds memory where it is
-- called, `open` succeeds, and the number of bytes that `write` takes, missing where it fails.
pub record Calls : Type 0 where
  pub locks : Bool
  pub has_memory : Bool
  pub opens : Bool
  pub written : Option ℕ

-- What a command changes: `max_frame_size`, the size that `frame` really has, whether a `memcpy` went
-- over its end, and the files opened with O_TRUNC, each with the bytes written to it.
pub record Taken : Type 0 where
  pub max_frame_size : ℕ
  pub room : ℕ
  pub overran : Bool
  pub files : List (Bytes × Bytes)

abbrev pub failed : ℤ
failed = negsuc 0

-- A `write` that takes less than the frame is no error for the code.
unfoldable pub write_opened : Option ℕ → Bytes → Bytes → Taken → Taken × ℤ
write_opened none frame name t = (record t { files = t.files ++ (name, []) ∷ [] }, failed)
write_opened (some n) frame name t =
    (record t { files = t.files ++ (name, take n frame) ∷ [] }, pos 0)

-- Behind the copy of the frame.
unfoldable pub write_frame : Calls → Bytes → Bytes → Taken → Taken × ℤ
unfolding write_opened
write_frame calls frame name t =
    if calls.opens then write_opened calls.written frame name t else (t, failed)

-- `memcpy` of the frame to the local buffer.
abbrev pub copy_frame : Bytes → Taken → Taken
copy_frame frame t = record t { overran = t.overran || ltb t.room (length frame) }

-- The local buffer is enlarged; without memory, `max_frame_size` is raised all the same.
abbrev pub raised : Bytes → Taken → Taken
raised frame t = record t { max_frame_size = length frame + 2 ^ 16 }

abbrev pub enlarged : Bytes → Taken → Taken
enlarged frame t = record t { max_frame_size = length frame + 2 ^ 16; room = length frame + 2 ^ 16 }

-- `case OUT_FILE_CMD_TAKE`
unfoldable pub take_picture : Calls → Bytes → Option Bytes → Taken → Taken × ℤ
unfolding write_frame
take_picture calls frame none t = (t, failed)
take_picture calls frame (some name) t =
    if calls.locks
    then (if ltb t.max_frame_size (length frame)
        then (if calls.has_memory
            then write_frame calls frame name (copy_frame frame (enlarged frame t))
            else (raised frame t, failed))
        else write_frame calls frame name (copy_frame frame t))
    else (t, failed)

-- `switch(control_id)`
unfoldable pub perform : Calls → Bytes → ℕ → Option Bytes → Taken → Taken × ℤ
unfolding take_picture
perform calls frame control_id value_str t =
    if control_id == take_command then take_picture calls frame value_str t else (t, failed)

-- The loop over `out_parameters`: whether one has the number and the group.
unfoldable pub has_control : List OutControl → ℕ → Bool
has_control [] control_id = false
has_control (c ∷ cs) control_id =
    let rest = has_control cs control_id in
    if c.id == control_id && c.group == generic_group then true else rest

-- `output_cmd`
unfoldable pub output_cmd :
    List OutControl → Calls → Bytes → ℕ → ℕ → Option Bytes → Taken → Taken × ℤ
unfolding perform has_control
output_cmd controls calls frame control_id group value_str t =
    if group == generic_group
    then (if has_control controls control_id
        then perform calls frame control_id value_str t
        else (t, failed))
    else (t, pos 0)
