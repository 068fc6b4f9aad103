-- ===== src/InputFile/Tests.antt =====
-- Runs of the thread of input_file, and the theorems at them.
use robotica_movel.Prelude.{
  ℕ, ◌≡◌, refl, true, false, List, [], ◌∷◌, Option, none, some, Bytes, codes,
}
use robotica_movel.CString.{contains, str_eq, strstr, starts_with, is_some}
use robotica_movel.GetOpt.{option, parse_options, switch}
use robotica_movel.InputFile.{
  Settings, existing_files, new_files_only, Event, Round, stopped, worker_thread, is_jpg,
}
use robotica_movel.InputFile.Options.{input_init, as_folder, last_byte, checked, with_folder}
use robotica_movel.InputFile.Serving.{outcome, picture_of}
use robotica_movel.InputFile.Existing.{expected, laps, existing_files_in_turn}
use robotica_movel.InputFile.NewFiles.{pictures_for, new_files_in_order}
use robotica_movel.InputFile.Resources.{IsReleased, worker_thread-IsReleased}

abbrev cycling : Settings
cycling = record { folder = codes "f/"; filename = none; rm = true; mode = existing_files; wd = 1 }

abbrev watching : Settings
watching = record cycling { mode = new_files_only; filename = some (codes "b.jpg") }

abbrev names : List Bytes
names = codes "a.jpg" ∷ codes "notes" ∷ codes "b.JPG" ∷ codes "z" ∷ []

abbrev round : Option Event → ℕ → Round
round e n = record {
  event = e;
  more = [];
  opens = true;
  stats = true;
  filesize = 2;
  has_memory = true;
  content = some (n ∷ n ∷ n ∷ []);
  stamp = (n, 0);
  unlinks = true;
}

abbrev five_rounds : List Round
five_rounds = round none 1 ∷ round none 2 ∷ round none 3 ∷ round none 4 ∷ round none 5 ∷ []

-- The folder holds two pictures; the fifth round is at the first of them again.
cycling_run :
    expected cycling (laps 6 names) five_rounds
    ≡ picture_of cycling (codes "a.jpg") (round none 1)
      ∷ picture_of cycling (codes "b.JPG") (round none 3)
      ∷ picture_of cycling (codes "a.jpg") (round none 5)
      ∷ []
unfolding expected is_jpg contains strstr starts_with is_some
cycling_run = refl

existing_files_in_turn_example :
    outcome (worker_thread cycling (some names) five_rounds)
    ≡ (expected cycling (laps 6 names) five_rounds, stopped)
unfolding is_jpg contains strstr starts_with is_some
existing_files_in_turn_example =
    existing_files_in_turn cycling names five_rounds refl
      (
        (refl, refl, refl, refl),
        (
          (refl, refl, refl, refl),
          ((refl, refl, refl, refl), ((refl, refl, refl, refl), ((refl, refl, refl, refl), tt))),
        ),
      )
      refl

abbrev event : ℕ → Bytes → Option Event
event wd name = some (record { wd = wd; ends = false; name = name })

abbrev events : List Round
events =
    round (event 1 (codes "a.jpg")) 1
    ∷ round (event 1 (codes "b.jpg")) 2
    ∷ round (event 2 (codes "b.jpg")) 3
    ∷ []

new_files_in_order_example :
    outcome (worker_thread watching none events)
    ≡ (picture_of watching (codes "b.jpg") (round (event 1 (codes "b.jpg")) 2) ∷ [], stopped)
unfolding is_some pictures_for str_eq
new_files_in_order_example =
    new_files_in_order watching none events refl
      ((refl, refl, refl, refl), ((refl, refl, refl, refl), ((refl, refl, refl, refl), tt)))
      (refl, (refl, (refl, tt)))

worker_thread-IsReleased_example : IsReleased (worker_thread cycling (some names) five_rounds).0
worker_thread-IsReleased_example =
    worker_thread-IsReleased cycling (some names) five_rounds
      (refl, (refl, (refl, (refl, (refl, tt)))))

-- A folder without "/" gets one.
input_init_run :
    input_init Bytes (λ s. s) [] 0 1 (option 4 (codes "f") ∷ option 10 [] ∷ option 7 [] ∷ [])
    ≡ some cycling
unfolding input_init parse_options switch checked with_folder as_folder last_byte
input_init_run = refl
