-- ===== src/InputFile/NewFiles.antt =====
-- plugins/input_file/input_file.c without the option existing: the files that inotify tells of.
use robotica_movel.Prelude.{
  ◌≡◌, refl, sym, ap, ◌∙◌, Bool, true, false, not, ◌&&◌, List, [], ◌∷◌, ◌++◌, Option, none, some,
  ◌==◌, if◌then◌else◌, Bytes, All, append_assoc, append-nil, if_false,
}
use robotica_movel.InputFile.Serving.{
  outcome, Succeeds, picture_of, behind, removes-keeps, serve_file-Succeeds,
}
use robotica_movel.InputFile.{
  Settings, new_files_only, Event, Round, Published, Worker, init_worker, stopped, left, serves,
  skips, quits, is_filtered, path, choose_new, removes, act, choose, worker_round, go_on,
  worker_loop, started, worker_thread,
}

-- An event of the folder, of a file that the filter lets through.
abbrev pub is_wanted : Settings → Event → Bool
is_wanted cfg e = (e.wd == cfg.wd) && not (is_filtered cfg.filename e.name)

abbrev pub picture_for : Settings → Option Event → Round → List Published
picture_for cfg none r = []
picture_for cfg (some e) r = if is_wanted cfg e then picture_of cfg e.name r ∷ [] else []

-- A picture for each round whose first event is wanted.
unfoldable pub pictures_for : Settings → List Round → List Published
pictures_for cfg [] = []
pictures_for cfg (r ∷ rs) = picture_for cfg r.event r ++ pictures_for cfg rs

-- `read` gives an event that does not suggest to stop.
abbrev pub Continues : Option Event → Type 0
Continues none = ⊥
Continues (some e) = e.ends ≡ false

module _ (cfg : Settings) (files : List Bytes) (is_new : cfg.mode ≡ new_files_only) where
  abbrev Passes : Round → Worker → Type 0
  Passes r w =
      (w' : Worker) × (worker_round cfg files r w ≡ (w', none))
      × (w'.published ≡ w.published ++ picture_for cfg r.event r)

  act_passes :
      (r : Round) (w : Worker) (o : Option Event)
      → Succeeds r
      → Continues o
      → (w' : Worker) × (act cfg r (choose_new cfg o w) ≡ (w', none))
        × (w'.published ≡ w.published ++ picture_for cfg o r)
  unfolding act choose_new
  act_passes r w none ok go = absurd go
  act_passes r w (some e) ok go = by_tests (e.wd == cfg.wd) (is_filtered cfg.filename e.name)
    where
      served : Worker
      served = removes cfg r (path cfg e.name) (behind cfg e.name r w)

      by_tests :
          (a b : Bool)
          → (w' : Worker) × (act cfg r (
                if a
                then (if e.ends
                    then quits w left
                    else (if b then skips w else serves (path cfg e.name) w))
                else skips w)
              ≡ (w', none))
            × (w'.published
                ≡ w.published ++ (if a && not b then picture_of cfg e.name r ∷ [] else []))
      by_tests true true = (w, ap (act cfg r) (if_false _ _ go), sym (append-nil w.published))
      by_tests true false = (
        served,
        ap (act cfg r) (if_false _ _ go) ∙ serve_file-Succeeds cfg r e.name w ok,
        (removes-keeps cfg r (path cfg e.name) _).2,
      )
      by_tests false b = (w, refl, sym (append-nil w.published))

  round-Passes : (r : Round) (w : Worker) → Succeeds r → Continues r.event → Passes r w
  unfolding worker_round choose
  round-Passes r w ok go =
      let (w', goes, published) = act_passes r w r.event ok go in
      (w', ap (λ m. act cfg r (choose cfg m files r w)) is_new ∙ goes, published)

  worker_loop_lem :
      (rs : List Round) (w : Worker)
      → All Succeeds rs
      → All (λ r. Continues r.event) rs
      → outcome (worker_loop cfg files rs w) ≡ (w.published ++ pictures_for cfg rs, stopped)
  unfolding worker_loop go_on pictures_for
  worker_loop_lem [] w ok go = ap (λ x. (x, stopped)) (sym (append-nil w.published))
  worker_loop_lem (r ∷ rs) w (ok, oks) (go, gos) =
      let (w', goes, published) = round-Passes r w ok go in
      ap (λ o. outcome (go_on (worker_loop cfg files rs) o)) goes
      ∙ worker_loop_lem rs w' oks gos
      ∙ ap (λ x. (x, stopped))
          (ap (◌++ pictures_for cfg rs) published ∙ append_assoc w.published _ _)

-- Without the option existing, while every call of the rounds succeeds and no event suggests to stop:
-- the thread goes on until it is stopped, and publishes, in the order of the rounds, the content of the
-- file of the first event that the read of each round gives, if it is of the watched folder and has the
-- given name, if one is given, and of no other: the events behind the first are lost.
pub new_files_in_order :
    (cfg : Settings) (names : Option (List Bytes)) (rs : List Round)
    → cfg.mode ≡ new_files_only
    → All Succeeds rs
    → All (λ r. Continues r.event) rs
    → outcome (worker_thread cfg names rs) ≡ (pictures_for cfg rs, stopped)
unfolding worker_thread started
new_files_in_order cfg names rs mode ok go =
    ap (λ m. outcome (started cfg m names rs)) mode
    ∙ worker_loop_lem cfg [] mode rs init_worker ok go
