-- ===== src/FileOutput/Command/Outcome.antt =====
-- The outcomes of `output_cmd` of plugins/output_file/output_file.c, and its local buffer.
use robotica_movel.Prelude.{
  ℕ, ◌+◌, ◌^◌, ◌≤◌, Bool, true, false, ◌||◌, List, [], ◌∷◌, ◌++◌, Option, none, some, ◌≡◌, refl, ap,
  arith, ltb, ◌==◌, if◌then◌else◌, inl, inr, ◌⊎◌, Bytes, length, take,
}
use robotica_movel.Prelude.Int.{ℤ, pos}
use robotica_movel.FileOutput.Command.{
  take_command, generic_group, OutControl, Calls, Taken, failed, write_opened, write_frame,
  copy_frame, raised, enlarged, take_picture, perform, has_control, output_cmd,
}

-- The outcomes: what `write` takes of the frame stands in the named file, or the command fails, and no
-- file changes but the named one, which is left empty where `write` fails.
pub record Stores (written : Option ℕ) (frame : Bytes) (value_str : Option Bytes) (t : Taken)
    (r : Taken × ℤ) : Type 0 where
  pub name : Bytes
  pub asked : value_str ≡ some name
  pub count : ℕ
  pub taken : written ≡ some count
  pub succeeds : r.1 ≡ pos 0
  pub stored : r.0.files ≡ t.files ++ (name, take count frame) ∷ []

pub record Empties (written : Option ℕ) (value_str : Option Bytes) (t : Taken) (r : Taken × ℤ)
    : Type 0 where
  pub name : Bytes
  pub asked : value_str ≡ some name
  pub refused : written ≡ none
  pub fails : r.1 ≡ failed
  pub emptied : r.0.files ≡ t.files ++ (name, []) ∷ []

pub record Refuses (t : Taken) (r : Taken × ℤ) : Type 0 where
  pub fails : r.1 ≡ failed
  pub unchanged : r.0.files ≡ t.files

abbrev pub HasOutcome : Option ℕ → Bytes → Option Bytes → Taken → Taken × ℤ → Type 0
HasOutcome written frame value_str t r =
    Stores written frame value_str t r ⊎ (Empties written value_str t r ⊎ Refuses t r)

-- The same files at the start give the same outcome.
write_frame-HasOutcome :
    (calls : Calls) (frame name : Bytes) (t t' : Taken)
    → t'.files ≡ t.files
    → HasOutcome calls.written frame (some name) t (write_frame calls frame name t')
unfolding write_frame write_opened
write_frame-HasOutcome calls frame name t t' e = by_calls calls.opens calls.written
  where
    by_calls :
        (opens : Bool) (written : Option ℕ)
        → HasOutcome written frame
            (some name)
            t
            (if opens then write_opened written frame name t' else (t', failed))
    by_calls true (some n) = inl record {
      name = name;
      asked = refl;
      count = n;
      taken = refl;
      succeeds = refl;
      stored = ap (λ l. l ++ (name, take n frame) ∷ []) e;
    }
    by_calls true none = inr (
        inl record {
          name = name;
          asked = refl;
          refused = refl;
          fails = refl;
          emptied = ap (λ l. l ++ (name, []) ∷ []) e;
        })
    by_calls false written = inr (inr record { fails = refl; unchanged = e })

take_picture-HasOutcome :
    (calls : Calls) (frame : Bytes) (value_str : Option Bytes) (t : Taken)
    → HasOutcome calls.written frame value_str t (take_picture calls frame value_str t)
unfolding take_picture
take_picture-HasOutcome calls frame none t = inr (inr record { fails = refl; unchanged = refl })
take_picture-HasOutcome calls frame (some name) t =
    by_calls calls.locks (ltb t.max_frame_size (length frame)) calls.has_memory
  where
    by_calls :
        (locks too_small has_memory : Bool)
        → HasOutcome calls.written frame (some name) t (
            if locks
            then (if too_small
                then (if has_memory
                    then write_frame calls frame name (copy_frame frame (enlarged frame t))
                    else (raised frame t, failed))
                else write_frame calls frame name (copy_frame frame t))
            else (t, failed))
    by_calls true true true =
        write_frame-HasOutcome calls frame name t (copy_frame frame (enlarged frame t)) refl
    by_calls true true false = inr (inr record { fails = refl; unchanged = refl })
    by_calls true false has_memory =
        write_frame-HasOutcome calls frame name t (copy_frame frame t) refl
    by_calls false too_small has_memory = inr (inr record { fails = refl; unchanged = refl })

-- Whatever the calls report, for any table of controls and any number of a command: in the generic
-- group `output_cmd` either returns 0 and the named file holds what `write` takes of the frame, from its
-- front on, which may be less than the whole; or it returns -1, and no file changes but the named one,
-- which is left empty where it opens and `write` fails.
pub output_cmd-HasOutcome :
    (controls : List OutControl) (calls : Calls) (frame : Bytes) (control_id : ℕ)
    (value_str : Option Bytes) (t : Taken)
    → HasOutcome calls.written frame value_str t
        (output_cmd controls calls frame control_id generic_group value_str t)
unfolding output_cmd perform
output_cmd-HasOutcome controls calls frame control_id value_str t =
    by_tests (has_control controls control_id) (control_id == take_command)
  where
    by_tests :
        (known takes : Bool)
        → HasOutcome calls.written frame value_str t (
            if known
            then (if takes then take_picture calls frame value_str t else (t, failed))
            else (t, failed))
    by_tests true true = take_picture-HasOutcome calls frame value_str t
    by_tests true false = inr (inr record { fails = refl; unchanged = refl })
    by_tests false takes = inr (inr record { fails = refl; unchanged = refl })

-- The local buffer is as large as `max_frame_size` says, and nothing went over its end.
pub record IsSafe (t : Taken) : Type 0 where
  pub enough : t.max_frame_size ≤ t.room
  pub inside : t.overran ≡ false

abbrev IsSafeAfter : Taken × ℤ → Type 0
IsSafeAfter r = IsSafe r.0

write_frame-IsSafe :
    (calls : Calls) (frame name : Bytes) (t : Taken)
    → IsSafe t
    → IsSafe (write_frame calls frame name t).0
unfolding write_frame write_opened
write_frame-IsSafe calls frame name t h = by_calls calls.opens calls.written
  where
    by_calls :
        (opens : Bool) (written : Option ℕ)
        → IsSafeAfter (if opens then write_opened written frame name t else (t, failed))
    by_calls true (some n) = record { enough = h.enough; inside = h.inside }
    by_calls true none = record { enough = h.enough; inside = h.inside }
    by_calls false written = h

fits_inside : (a : Bool) (room size : ℕ) → a ≡ false → size ≤ room → (a || ltb room size) ≡ false
fits_inside a room size e h = ground arith

take_picture-IsSafe :
    (calls : Calls) (frame : Bytes) (value_str : Option Bytes) (t : Taken)
    → calls.has_memory ≡ true
    → IsSafe t
    → IsSafe (take_picture calls frame value_str t).0
unfolding take_picture
take_picture-IsSafe calls frame none t m h = h
take_picture-IsSafe calls frame (some name) t m h =
    by_calls calls.locks (ltb t.max_frame_size (length frame)) calls.has_memory refl m
  where
    by_calls :
        (locks too_small has_memory : Bool)
        → ltb t.max_frame_size (length frame) ≡ too_small
        → has_memory ≡ true
        → IsSafe
            (if locks
              then (if too_small
                  then (if has_memory
                      then write_frame calls frame name (copy_frame frame (enlarged frame t))
                      else (raised frame t, failed))
                  else write_frame calls frame name (copy_frame frame t))
              else (t, failed)).0
    by_calls true true true e m =
        write_frame-IsSafe calls frame name (copy_frame frame (enlarged frame t)) record {
          enough = omega arith;
          inside =
              fits_inside t.overran (length frame + 2 ^ 16) (length frame) h.inside (omega arith);
        }
    by_calls true true false e m = absurd cc
    by_calls true false has_memory e m =
        write_frame-IsSafe calls frame name (copy_frame frame t) record {
          enough = h.enough;
          inside =
              fits_inside t.overran t.room (length frame) h.inside (ground (arith, h.enough, e));
        }
    by_calls false too_small has_memory e m = h

-- As long as `realloc` finds memory: when the local buffer is as large as `max_frame_size` says, and
-- no `memcpy` went over its end, this holds again after any command.
pub output_cmd-IsSafe :
    (controls : List OutControl) (calls : Calls) (frame : Bytes) (control_id group : ℕ)
    (value_str : Option Bytes) (t : Taken)
    → calls.has_memory ≡ true
    → IsSafe t
    → IsSafe (output_cmd controls calls frame control_id group value_str t).0
unfolding output_cmd perform
output_cmd-IsSafe controls calls frame control_id group value_str t m h =
    by_tests (group == generic_group) (has_control controls control_id) (control_id == take_command)
  where
    by_tests :
        (generic known takes : Bool)
        → IsSafe
            (if generic
              then (if known
                  then (if takes then take_picture calls frame value_str t else (t, failed))
                  else (t, failed))
              else (t, pos 0)).0
    by_tests true true true = take_picture-IsSafe calls frame value_str t m h
    by_tests true true false = h
    by_tests true false takes = h
    by_tests false known takes = h
