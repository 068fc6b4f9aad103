-- ===== src/InputFile/Resources.antt =====
-- plugins/input_file/input_file.c: the descriptors of the files, and the mutex, when the loop ends.
use robotica_movel.Prelude.{
  ℕ, suc, ◌≡◌, refl, true, false, not, ◌&&◌, List, [], ◌∷◌, Option, none, some, ◌==◌, Bytes, length,
  get_elem?, All, if_cases, if_true, sym, ap, arith,
}
use mathlib.Core.Path.{subst}
use robotica_movel.InputFile.{
  Settings, ReadMode, new_files_only, existing_files, Event, Round, Worker, init_worker, End, left,
  Choice, serves, skips, quits, path, is_filtered, is_jpg, choose_new, next_file, choose_name,
  choose_existing, removes, opened, closed, locks, read_file, fill, stat_file, serve_file, act,
  choose, worker_round, go_on, worker_loop, started, worker_thread,
}

abbrev pub IsReleased : Worker → Type 0
IsReleased w = (w.open_files ≡ 0) × (w.locked ≡ false)

abbrev IsReleasedChoice : Choice → Type 0
IsReleasedChoice (serves file w) = IsReleased w
IsReleasedChoice (skips w) = IsReleased w
IsReleasedChoice (quits w e) = IsReleased w

choose_new-IsReleased :
    (cfg : Settings) (o : Option Event) (w : Worker)
    → IsReleased w
    → IsReleasedChoice (choose_new cfg o w)
unfolding choose_new
choose_new-IsReleased cfg none w h = h
choose_new-IsReleased cfg (some e) w h =
    if_cases IsReleasedChoice (e.wd == cfg.wd) _ (skips w)
      (if_cases IsReleasedChoice e.ends (quits w left) _ h (
        if_cases IsReleasedChoice (is_filtered cfg.filename e.name) (skips w)
          (serves (path cfg e.name) w) h h))
      h

choose_name-IsReleased :
    (cfg : Settings) (count : ℕ) (o : Option Bytes) (w : Worker)
    → IsReleased w
    → IsReleasedChoice (choose_name cfg count o w)
unfolding choose_name
choose_name-IsReleased cfg count none w h = h
choose_name-IsReleased cfg count (some name) w h =
    if_cases IsReleasedChoice (is_jpg name)
      (serves (path cfg name) (record w { current = next_file count w.current; has_jpg = true })) _
      h
      (if_cases IsReleasedChoice (suc w.current == count && not w.has_jpg)
        (quits (record w { current = suc w.current }) left)
        (skips (record w { current = next_file count w.current })) h h)

choose-IsReleased :
    (cfg : Settings) (mode : ReadMode) (files : List Bytes) (r : Round) (w : Worker)
    → IsReleased w
    → IsReleasedChoice (choose cfg mode files r w)
unfolding choose choose_existing
choose-IsReleased cfg new_files_only files r w h = choose_new-IsReleased cfg r.event w h
choose-IsReleased cfg existing_files files r w h =
    choose_name-IsReleased cfg (length files) (get_elem? files w.current) w h

removes-IsReleased :
    (cfg : Settings) (r : Round) (file : Bytes) (w : Worker)
    → IsReleased w
    → IsReleased (removes cfg r file w)
unfolding removes
removes-IsReleased cfg r file w h = if_cases IsReleased _ _ _ h h

-- One file is open, and `db` is locked.
abbrev Holds : Worker → Type 0
Holds w = (w.open_files ≡ 1) × (w.locked ≡ true)

read_file-IsReleased :
    (cfg : Settings) (r : Round) (file : Bytes) (o : Option Bytes) (w : Worker)
    → Holds w
    → IsReleased (read_file cfg r file o w).0
unfolding read_file
read_file-IsReleased cfg r file none w h = (omega (arith, h.0), refl)
read_file-IsReleased cfg r file (some bytes) w h =
    removes-IsReleased cfg r file _ (omega (arith, h.0), refl)

serve_file-IsReleased :
    (cfg : Settings) (r : Round) (file : Bytes) (w : Worker)
    → r.has_memory ≡ true
    → IsReleased w
    → IsReleased (serve_file cfg r file w).0
unfolding serve_file stat_file fill
serve_file-IsReleased cfg r file w m h =
    if_cases (λ (x : Worker × Option End). IsReleased (x.0)) r.opens
      (stat_file cfg r file (opened w)) (w, some left)
      (if_cases (λ (x : Worker × Option End). IsReleased (x.0)) r.stats
        (fill cfg r file (locks (opened w))) (closed (opened w), some left)
        (subst (λ (x : Worker × Option End). IsReleased (x.0))
          (sym (if_true (read_file cfg r file r.content (locks (opened w))) _ m))
          (read_file-IsReleased cfg r file r.content (locks (opened w)) (ap suc h.0, refl)))
        (omega (arith, h.0), h.1))
      h

act-IsReleased :
    (cfg : Settings) (r : Round) (c : Choice)
    → r.has_memory ≡ true
    → IsReleasedChoice c
    → IsReleased (act cfg r c).0
unfolding act
act-IsReleased cfg r (serves file w) m h = serve_file-IsReleased cfg r file w m h
act-IsReleased cfg r (skips w) m h = h
act-IsReleased cfg r (quits w e) m h = h

worker_loop-IsReleased :
    (cfg : Settings) (files : List Bytes) (rs : List Round) (w : Worker)
    → All (λ r. r.has_memory ≡ true) rs
    → IsReleased w
    → IsReleased (worker_loop cfg files rs w).0
unfolding worker_loop worker_round go_on
worker_loop-IsReleased cfg files [] w m h = h
worker_loop-IsReleased cfg files (r ∷ rs) w (m, ms) h =
    go (worker_round cfg files r w)
      (act-IsReleased cfg r _ m (choose-IsReleased cfg cfg.mode files r w h))
      (λ w'. worker_loop-IsReleased cfg files rs w' ms)
  where
    go :
        (o : Worker × Option End)
        → IsReleased o.0
        → ((w' : Worker) → IsReleased w' → IsReleased (worker_loop cfg files rs w').0)
        → IsReleased (go_on (worker_loop cfg files rs) o).0
    go (w', none) k rest = rest w' k
    go (w', some e) k rest = k

-- In both modes, whatever the calls report, as long as malloc finds memory: when the loop of
-- worker_thread has ended, each file that it has opened is closed, and db is unlocked.
pub worker_thread-IsReleased :
    (cfg : Settings) (names : Option (List Bytes)) (rs : List Round)
    → All (λ r. r.has_memory ≡ true) rs
    → IsReleased (worker_thread cfg names rs).0
unfolding worker_thread started go_on
worker_thread-IsReleased cfg names rs m = by_mode cfg.mode names
  where
    by_mode : (mode : ReadMode) (o : Option (List Bytes)) → IsReleased (started cfg mode o rs).0
    by_mode new_files_only o = worker_loop-IsReleased cfg [] rs init_worker m (refl, refl)
    by_mode existing_files none = (refl, refl)
    by_mode existing_files (some files) =
        worker_loop-IsReleased cfg files rs init_worker m (refl, refl)
