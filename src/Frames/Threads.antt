-- ===== src/Frames/Threads.antt =====
-- plugins/input_file/input_file.c (`worker_thread`, from `fstat` to the unlock) and
-- plugins/output_http/httpd.c (`send_stream`, from the lock to the unlock), a shared access at a time.
use robotica_movel.Prelude.{
  ℕ, suc, ◌+◌, ◌^◌, ◌<◌, ◌≡◌, Bool, true, false, [], ◌∷◌, ◌++◌, Option, none, some, Bytes, length,
}
use robotica_movel.Frames.Buffer.{Buffer, null, freed, block, load, store}

-- Seconds and microseconds.
abbrev pub Timeval : Type 0
Timeval = ℕ × ℕ

-- The fields of `struct _input` that `db` guards.
pub record Input : Type 0 where
  pub buf : Buffer
  pub size : ℕ
  pub timestamp : Timeval

-- A picture with its time.
pub record Picture : Type 0 where
  pub bytes : Bytes
  pub stamp : Timeval

-- The threads that lock `db`: the one of the input plugin, and one for each client.
pub data Thread : Type 0 where
  worker : Thread
  client : ℕ → Thread

-- Where the thread of the input plugin stands, with the locals that are live there: `filesize`, and
-- the bytes that `read` has given.
pub data WorkerPc : Type 0 where
  outside : WorkerPc  -- head of the loop, up to `fstat`
  opened : (filesize : ℕ) → WorkerPc
  locked : (filesize : ℕ) → WorkerPc
  emptied : (filesize : ℕ) → WorkerPc  -- behind `free` of the old picture
  filling : (filesize : ℕ) (given : Bytes) → WorkerPc  -- inside `read`
  filled : (given : Bytes) → WorkerPc
  timed : (given : Bytes) → WorkerPc
  announced : WorkerPc  -- behind `pthread_cond_broadcast`
  failed : WorkerPc  -- `read` has failed
  ended : WorkerPc  -- the loop is left
  stuck : WorkerPc  -- the loop is left with `db` locked; `worker_cleanup` finds no memory to free
  cleaned : WorkerPc  -- behind `worker_cleanup`
  crashed : WorkerPc  -- a write outside allocated memory

-- `if(buf != NULL) free(buf)`
abbrev pub give_back : Buffer → Buffer
give_back null = null
give_back _ = freed

-- The mutex `db` is the thread that holds it. The new memory has any contents, and `read` may give
-- fewer bytes than the file had at `fstat`. The -1 that a failing `read` leaves in `size` is gone
-- before the unlock, in the same move. `worker_cleanup` runs behind the loop, without `db`, and frees
-- the picture; the pointer stays.
pub data WorkerMove (m : Input) (o : Option Thread)
    : WorkerPc → Input → Option Thread → WorkerPc → Type 0 where
  stat : (n : ℕ) → WorkerMove m o outside m o (opened n)
  leave : WorkerMove m o outside m o ended
  lock : {n : ℕ} → o ≡ none → WorkerMove m o (opened n) m (some worker) (locked n)
  give : {n : ℕ} → WorkerMove m o (locked n) (record m { buf = give_back m.buf }) o (emptied n)
  allocate :
      {n : ℕ} (byte : ℕ → ℕ)
      → WorkerMove m o (emptied n) (record m { buf = block (n + 2 ^ 16) byte }) o (filling n [])
  no_memory : {n : ℕ} → WorkerMove m o (emptied n) (record m { buf = null }) o stuck
  read_byte :
      {n : ℕ} {given : Bytes} {buf' : Buffer} (b : ℕ)
      → length given < n
      → store m.buf (length given) b ≡ some buf'
      → WorkerMove m o (filling n given) (record m { buf = buf' }) o (filling n (given ++ b ∷ []))
  bad_write :
      {n : ℕ} {given : Bytes} (b : ℕ)
      → length given < n
      → store m.buf (length given) b ≡ none
      → WorkerMove m o (filling n given) m o crashed
  read_end :
      {n : ℕ} {given : Bytes}
      → WorkerMove m o (filling n given) (record m { size = length given }) o (filled given)
  read_fails :
      {n : ℕ} {given : Bytes}
      → WorkerMove m o (filling n given) (record m { buf = null; size = 0 }) o failed
  give_up : WorkerMove m o failed m none ended
  stamp :
      {given : Bytes} (t : Timeval)
      → WorkerMove m o (filled given) (record m { timestamp = t }) o (timed given)
  unlock : WorkerMove m o announced m none outside
  clean_up : WorkerMove m o ended (record m { buf = give_back m.buf }) o cleaned

-- Where the thread of a client stands, with `frame_size`, `timestamp`, the index of `memcpy` and the
-- bytes copied.
pub data ClientPc : Type 0 where
  idle : ClientPc  -- head of the loop
  holding : ClientPc  -- before `pthread_cond_wait`
  waiting : ClientPc
  woken : ClientPc  -- to lock `db` again, still in `pthread_cond_wait`
  owning : ClientPc
  sized : (frame_size : ℕ) → ClientPc
  copying : (frame_size : ℕ) (t : Timeval) (i : ℕ) (copied : Bytes) → ClientPc
  gone : ClientPc
  wild : ClientPc  -- a read outside allocated memory

-- `late` tells whether `pthread_cond_wait` may return with no broadcast, as POSIX allows. The last
-- index is the frame that the client gets.
pub data ClientMove (late : Bool) (k : ℕ) (m : Input) (o : Option Thread)
    : ClientPc → Option Thread → ClientPc → Option Picture → Type 0 where
  stop : ClientMove late k m o idle o gone none
  acquire : o ≡ none → ClientMove late k m o idle (some (client k)) holding none
  wait : ClientMove late k m o holding none waiting none
  spurious : late ≡ true → ClientMove late k m o waiting o woken none
  reacquire : o ≡ none → ClientMove late k m o woken (some (client k)) owning none
  read_size : ClientMove late k m o owning o (sized m.size) none
  no_room : {n : ℕ} → ClientMove late k m o (sized n) none gone none
  copy_stamp : {n : ℕ} → ClientMove late k m o (sized n) o (copying n m.timestamp 0 []) none
  copy_byte :
      {n i b : ℕ} {t : Timeval} {copied : Bytes}
      → i < n
      → load m.buf i ≡ some b
      → ClientMove late k m o (copying n t i copied) o (copying n t (suc i) (copied ++ b ∷ [])) none
  bad_read :
      {n i : ℕ} {t : Timeval} {copied : Bytes}
      → i < n
      → load m.buf i ≡ none
      → ClientMove late k m o (copying n t i copied) o wild none
  release :
      {n : ℕ} {t : Timeval} {copied : Bytes}
      → ClientMove late k m o
          (copying n t n copied)
          none
          idle
          (some (record { bytes = copied; stamp = t }))

-- Between the lock of `db` and its unlock.
abbrev pub worker_inside : WorkerPc → Bool
worker_inside outside = false
worker_inside (opened _) = false
worker_inside ended = false
worker_inside cleaned = false
worker_inside _ = true

abbrev pub client_inside : ClientPc → Bool
client_inside holding = true
client_inside owning = true
client_inside (sized _) = true
client_inside (copying _ _ _ _) = true
client_inside wild = true
client_inside _ = false
