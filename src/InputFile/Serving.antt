-- ===== src/InputFile/Serving.antt =====
-- plugins/input_file/input_file.c: a round in which every call succeeds.
use robotica_movel.Prelude.{
  ◌≡◌, refl, ◌∙◌, Bool, true, false, ◌&&◌, List, [], ◌∷◌, ◌++◌, Option, none, some, if◌then◌else◌,
  Bytes, take, if_true,
}
use robotica_movel.CString.{is_some}
use robotica_movel.InputFile.{
  Settings, Round, Published, Worker, End, path, removes, opened, closed, locks, unlocks, publishes,
  read_file, fill, stat_file, serve_file,
}

-- Every call that a round makes succeeds.
abbrev pub Succeeds : Round → Type 0
Succeeds r =
    (r.opens ≡ true) × (r.stats ≡ true) × (r.has_memory ≡ true) × (is_some r.content ≡ true)

abbrev pub content_of : Option Bytes → Bytes
content_of none = []
content_of (some bytes) = bytes

abbrev pub picture_of : Settings → Bytes → Round → Published
picture_of cfg name r = record {
  path = path cfg name;
  bytes = take r.filesize (content_of r.content);
  stamp = r.stamp;
}

-- `removes` leaves all that the next rounds read.
pub removes-keeps :
    (cfg : Settings) (r : Round) (file : Bytes) (w : Worker)
    → ((removes cfg r file w).current ≡ w.current)
      × ((removes cfg r file w).has_jpg ≡ w.has_jpg)
      × ((removes cfg r file w).published ≡ w.published)
unfolding removes
removes-keeps cfg r file w = by_test (cfg.rm && r.unlinks)
  where
    removed : Bool → Worker
    removed t = if t then record w { removed = w.removed ++ file ∷ [] } else w

    by_test :
        (t : Bool)
        → ((removed t).current ≡ w.current)
          × ((removed t).has_jpg ≡ w.has_jpg)
          × ((removed t).published ≡ w.published)
    by_test true = (refl, refl, refl)
    by_test false = (refl, refl, refl)

read_file_some :
    (cfg : Settings) (r : Round) (file : Bytes) (o : Option Bytes) (w : Worker)
    → is_some o ≡ true
    → read_file cfg r file o w ≡ (
      removes cfg r file (
          closed (
            unlocks (
              publishes
                (record { path = file; bytes = take r.filesize (content_of o); stamp = r.stamp })
                w))),
      none,
    )
unfolding read_file is_some
read_file_some cfg r file none w h = absurd cc
read_file_some cfg r file (some bytes) w h = refl

-- The worker behind a round that serves the file, but for the removal.
abbrev pub behind : Settings → Bytes → Round → Worker → Worker
behind cfg name r w = closed (unlocks (publishes (picture_of cfg name r) (locks (opened w))))

pub serve_file-Succeeds :
    (cfg : Settings) (r : Round) (name : Bytes) (w : Worker)
    → Succeeds r
    → serve_file cfg r (path cfg name) w
      ≡ (removes cfg r (path cfg name) (behind cfg name r w), none)
unfolding serve_file stat_file fill
serve_file-Succeeds cfg r name w (opens, stats, memory, content) =
    if_true _ _ opens
    ∙ if_true _ _ stats
    ∙ if_true _ _ memory
    ∙ read_file_some cfg r (path cfg name) r.content (locks (opened w)) content

-- What a run has published, and how it ended.
abbrev pub outcome : Worker × End → List Published × End
outcome (w, e) = (w.published, e)
