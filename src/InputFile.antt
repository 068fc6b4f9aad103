-- ===== src/InputFile.antt =====
-- plugins/input_file/input_file.c: the thread that publishes the JPEG files of a folder.

pub mod Options
mod Serving
mod Existing
mod NewFiles
mod Resources
mod Tests
use robotica_movel.Prelude.{
  ℕ, zero, suc, ◌+◌, ◌-◌, ◌^◌, Bool, true, false, not, ◌&&◌, ◌||◌, List, [], ◌∷◌, ◌++◌, Option,
  none, some, ◌==◌, if◌then◌else◌, Bytes, codes, length, take, get_elem?,
}
use robotica_movel.CString.{str_eq, contains}

pub data ReadMode : Type 0 where
  new_files_only : ReadMode
  existing_files : ReadMode

-- The static variables that the options set, and the watch descriptor.
pub record Settings : Type 0 where
  pub folder : Bytes
  pub filename : Option Bytes
  pub rm : Bool
  pub mode : ReadMode
  pub wd : ℕ

-- An event of inotify. `ends` tells whether its mask holds IN_IGNORED, IN_Q_OVERFLOW or IN_UNMOUNT.
pub record Event : Type 0 where
  pub wd : ℕ
  pub ends : Bool
  pub name : Bytes

-- What the calls of a round report, those of them that are made: `event` is missing where `read`
-- fails, `content` where the one of the file does. `read` may fill the buffer with several events:
-- `event` is the first, at which `ev` points, and `more` holds those behind it, which no line looks at.
pub record Round : Type 0 where
  pub event : Option Event
  pub more : List Event
  pub opens : Bool
  pub stats : Bool
  pub filesize : ℕ
  pub has_memory : Bool
  pub content : Option Bytes
  pub stamp : ℕ × ℕ
  pub unlinks : Bool

-- A picture that was published: the path of its file, its bytes and its time.
pub record Published : Type 0 where
  pub path : Bytes
  pub bytes : Bytes
  pub stamp : ℕ × ℕ

-- What the thread changes: its locals, the pictures published, the files removed, the descriptors
-- that it has open, and whether it holds `db`.
pub record Worker : Type 0 where
  pub current : ℕ
  pub has_jpg : Bool
  pub published : List Published
  pub removed : List Bytes
  pub open_files : ℕ
  pub locked : Bool

abbrev pub init_worker : Worker
init_worker = record {
  current = 0;
  has_jpg = false;
  published = [];
  removed = [];
  open_files = 0;
  locked = false;
}

-- How the loop is left: `stop` is set, a `break` or `goto`, or a read behind `fileList`.
pub data End : Type 0 where
  stopped : End
  left : End
  wild_read : End

-- The first half of a round: a file to open, `continue`, or an end.
pub data Choice : Type 0 where
  serves : Bytes → Worker → Choice
  skips : Worker → Choice
  quits : Worker → End → Choice

-- `snprintf(buffer, sizeof(buffer), "%s%s", folder, name)`
unfoldable pub path : Settings → Bytes → Bytes
path cfg name = take (2 ^ 16 - 1) (cfg.folder ++ name)

abbrev pub is_filtered : Option Bytes → Bytes → Bool
is_filtered none name = false
is_filtered (some filename) name = not (str_eq filename name)

unfoldable pub choose_new : Settings → Option Event → Worker → Choice
choose_new cfg none w = quits w left
choose_new cfg (some e) w =
    if e.wd == cfg.wd
    then (if e.ends
        then quits w left
        else (if is_filtered cfg.filename e.name then skips w else serves (path cfg e.name) w))
    else skips w

unfoldable pub is_jpg : Bytes → Bool
is_jpg name = contains name (codes ".jpg") || contains name (codes ".JPG")

-- The number of the next file, in a folder of `count` files.
abbrev pub next_file : ℕ → ℕ → ℕ
next_file count c = if suc c == count then 0 else suc c

unfoldable pub choose_name : Settings → ℕ → Option Bytes → Worker → Choice
choose_name cfg count none w = quits w wild_read
choose_name cfg count (some name) w =
    if is_jpg name
    then serves (path cfg name) (record w { current = next_file count w.current; has_jpg = true })
    else (if suc w.current == count && not w.has_jpg
        then quits (record w { current = suc w.current }) left
        else skips (record w { current = next_file count w.current }))

unfoldable pub choose_existing : Settings → List Bytes → Worker → Choice
choose_existing cfg files w = choose_name cfg (length files) (get_elem? files w.current) w

unfoldable pub removes : Settings → Round → Bytes → Worker → Worker
removes cfg r file w =
    if cfg.rm && r.unlinks then record w { removed = w.removed ++ file ∷ [] } else w

-- `open` and `close` of the file, and lock and unlock of `db`.
abbrev pub opened : Worker → Worker
opened w = record w { open_files = suc w.open_files }

abbrev pub closed : Worker → Worker
closed w = record w { open_files = w.open_files - 1 }

abbrev pub locks : Worker → Worker
locks w = record w { locked = true }

abbrev pub unlocks : Worker → Worker
unlocks w = record w { locked = false }

abbrev pub publishes : Published → Worker → Worker
publishes p w = record w { published = w.published ++ p ∷ [] }

-- `read` gives at most the bytes that `fstat` has told.
unfoldable pub read_file : Settings → Round → Bytes → Option Bytes → Worker → Worker × Option End
read_file cfg r file none w = (closed (unlocks w), some left)
read_file cfg r file (some bytes) w = (
  removes cfg r file (
      closed (
        unlocks
          (publishes (record { path = file; bytes = take r.filesize bytes; stamp = r.stamp }) w))),
  none,
)

-- From the lock on: where there is no memory, the file stays open and `db` locked.
unfoldable pub fill : Settings → Round → Bytes → Worker → Worker × Option End
fill cfg r file w = if r.has_memory then read_file cfg r file r.content w else (w, some left)

-- From `fstat` on.
unfoldable pub stat_file : Settings → Round → Bytes → Worker → Worker × Option End
stat_file cfg r file w = if r.stats then fill cfg r file (locks w) else (closed w, some left)

-- The second half of a round.
unfoldable pub serve_file : Settings → Round → Bytes → Worker → Worker × Option End
serve_file cfg r file w = if r.opens then stat_file cfg r file (opened w) else (w, some left)

unfoldable pub act : Settings → Round → Choice → Worker × Option End
act cfg r (serves file w) = serve_file cfg r file w
act cfg r (skips w) = (w, none)
act cfg r (quits w e) = (w, some e)

unfoldable pub choose : Settings → ReadMode → List Bytes → Round → Worker → Choice
choose cfg new_files_only files r w = choose_new cfg r.event w
choose cfg existing_files files r w = choose_existing cfg files w

-- The body of the loop, and whether and how the loop ends.
unfoldable pub worker_round : Settings → List Bytes → Round → Worker → Worker × Option End
worker_round cfg files r w = act cfg r (choose cfg cfg.mode files r w)

unfoldable pub go_on : (Worker → Worker × End) → Worker × Option End → Worker × End
go_on rest (w, none) = rest w
go_on rest (w, some e) = (w, e)

-- The loop over the rounds before `stop` is set.
unfoldable pub worker_loop : Settings → List Bytes → List Round → Worker → Worker × End
worker_loop cfg files [] w = (w, stopped)
worker_loop cfg files (r ∷ rs) w = go_on (worker_loop cfg files rs) (worker_round cfg files r w)

-- `scandir` gives the names in order, or fails; it is not called in the other mode.
unfoldable pub started : Settings → ReadMode → Option (List Bytes) → List Round → Worker × End
started cfg new_files_only names rs = worker_loop cfg [] rs init_worker
started cfg existing_files none rs = (init_worker, left)
started cfg existing_files (some names) rs = worker_loop cfg names rs init_worker

unfoldable pub worker_thread : Settings → Option (List Bytes) → List Round → Worker × End
worker_thread cfg names rs = started cfg cfg.mode names rs
