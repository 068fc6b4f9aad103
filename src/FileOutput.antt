-- ===== src/FileOutput.antt =====
-- plugins/output_file/output_file.c: the thread that stores the pictures, and the ring buffer of
-- files that it keeps.
pub mod Command
pub mod Ring
pub mod Options
mod Tests
use robotica_movel.Prelude.{
  ℕ, zero, suc, ◌+◌, ◌-◌, ◌%◌, ◌^◌, ◌≤◌, Bool, true, false, ◌||◌, List, [], ◌∷◌, ◌++◌, Option, none,
  some, ◌≡◌, ◌==◌, if◌then◌else◌, Bytes, codes, length, take,
}
use robotica_movel.Prelude.Int.{ℤ, pos, negsuc}
use robotica_movel.CString.Number.{decimal_padded}

-- What the thread uses of the file system, on the states `S` of the folder.
pub record FileSystem (S : Type 0) : Type 1 where
  -- `scandir(folder, &namelist, check_for_filename, alphasort)`; `none` is an error
  pub scandir : S → Option (List Bytes)
  -- `unlink(folder/name)`
  pub unlink : Bytes → S → S
  -- `open(folder/name, O_CREAT | O_RDWR | O_TRUNC)`, and a `write` of the bytes
  pub store : Bytes → Bytes → S → S
  -- `unlink(folder/new)`, then `link(folder/old, folder/new)`
  pub relink : Bytes → Bytes → S → S
  -- `system` on the user's command and the name
  pub system : Bytes → Bytes → S → S

-- The variables that `output_init` sets.
pub record Settings : Type 0 where
  pub ringbuffer_size : ℤ
  pub ringbuffer_exceed : ℤ
  pub link_file_name : Option Bytes
  pub command : Option Bytes
  -- `mjpgFileName != NULL`
  pub records : Bool

-- The format of the names, "%d_%d_%d_%d_%d_%d_picture_%09llu.jpg"; `date` is what `strftime` writes.
unfoldable pub picture_name : Bytes → ℕ → Bytes
picture_name date counter =
    date ++ (codes "_picture_" ++ (decimal_padded 9 counter ++ codes ".jpg"))

-- One frame, and what the calls of the round report: `none` for a date that `localtime` or
-- `strftime` cannot give, and whether `open` and `write` succeed.
pub record Round : Type 0 where
  pub frame : Bytes
  pub date : Option Bytes
  pub opens : Bool
  pub writes : Bool

-- `check_for_filename`; `conversions` is the return value of `sscanf` on the name.
unfoldable pub check_for_filename : (Bytes → ℕ) → Bytes → Bool
check_for_filename conversions name = conversions name == 7

module _ {S : Type 0} (fs : FileSystem S) where
  -- "delete the first (thus oldest) number of files"
  unfoldable pub unlink_all : List Bytes → S → S
  unlink_all [] s = s
  unlink_all (name ∷ names) s = unlink_all names (fs.unlink name s)

  unfoldable pub shrink_to : ℕ → Option (List Bytes) → S → S
  unfolding unlink_all
  shrink_to size none s = s
  shrink_to size (some names) s = unlink_all (take (length names - size) names) s

  -- `maintain_ringbuffer`
  unfoldable pub maintain_ringbuffer : ℤ → S → S
  unfolding shrink_to
  maintain_ringbuffer (negsuc n) s = s
  maintain_ringbuffer (pos size) s = shrink_to size (fs.scandir s) s

  -- What the thread changes: the folder, its counter and the file that it records to.
  pub record Worker : Type 0 where
    pub folder : S
    pub counter : ℕ
    pub recorded : Bytes

  -- Whether a round cleans up, with the counter behind `counter++`.
  unfoldable pub cleans_up : ℤ → ℕ → Bool
  cleans_up (negsuc n) counter = true
  cleans_up (pos zero) counter = true
  cleans_up (pos (suc n)) counter = counter == 1 || counter % (suc n + 1) == 0

  unfoldable pub linked : Option Bytes → Bytes → S → S
  linked none name s = s
  linked (some new) name s = fs.relink name new s

  unfoldable pub commanded : Option Bytes → Bytes → S → S
  commanded none name s = s
  commanded (some command) name s = fs.system command name s

  -- A stored picture: the link, the command and the ring buffer.
  unfoldable pub after_store : Settings → Bytes → ℕ → S → S
  unfolding maintain_ringbuffer cleans_up linked commanded
  after_store cfg name counter s =
      let s' = commanded cfg.command name (linked cfg.link_file_name name s) in
      if cleans_up cfg.ringbuffer_exceed counter
      then maintain_ringbuffer cfg.ringbuffer_size s'
      else s'

  -- "single files with ringbuffer mode", with a date
  unfoldable pub store_picture : Settings → Round → Bytes → Worker → Worker × Bool
  unfolding after_store picture_name
  store_picture cfg r date w =
      let name = picture_name date w.counter in
      let counter' = (w.counter + 1) % 2 ^ 64 in
      if r.opens
      then (if r.writes
          then (
            record w {
              folder = after_store cfg name counter' (fs.store name r.frame w.folder);
              counter = counter';
            },
            true,
          )
          else (record w { folder = fs.store name [] w.folder; counter = counter' }, false))
      else (record w { counter = counter' }, false)

  unfoldable pub dated : Settings → Round → Option Bytes → Worker → Worker × Bool
  unfolding store_picture
  dated cfg r none w = (w, false)
  dated cfg r (some date) w = store_picture cfg r date w

  -- The body of the loop of `worker_thread`, and whether the loop goes on.
  unfoldable pub worker_round : Settings → Round → Worker → Worker × Bool
  unfolding dated
  worker_round cfg r w =
      if cfg.records
      then (if r.writes then (record w { recorded = w.recorded ++ r.frame }, true) else (w, false))
      else dated cfg r r.date w

  -- `worker_thread` over the frames that arrive before `stop`.
  unfoldable pub worker_thread : Settings → List Round → Worker → Worker × Bool
  unfolding worker_round
  worker_thread cfg [] w = (w, true)
  worker_thread cfg (r ∷ rs) w =
      let (w', goes_on) = worker_round cfg r w in
      let later = worker_thread cfg rs w' in if goes_on then later else (w', false)
