-- ===== src/Frames/Tests.antt =====
-- Runs of the threads, and the theorems at them.
use robotica_movel.Prelude.{ℕ, ◌≡◌, ◌≢◌, refl, Bool, true, false, [], ◌∷◌, arith, All}
use mathlib.Core.List.{Sublistᴰ}
use robotica_movel.Frames.Buffer.{load, store}
use robotica_movel.Frames.Threads.{
  Picture, Thread, outside, stuck, crashed, wild, stat, lock, give, allocate, no_memory, read_byte,
  read_end, stamp, unlock, leave, clean_up, bad_read, stop, acquire, wait, reacquire, read_size,
  copy_stamp, copy_byte, release,
}
use robotica_movel.Frames.System.{System, Step, work, broadcast, pick, Reach, start, later, inside}
use robotica_movel.Frames.Invariant.{IsAlive}
use robotica_movel.Frames.Safety.{IsWhole, got-IsWhole, db_guards_the_frame}
use robotica_movel.Frames.Order.{clients_get_frames_in_order}
use robotica_movel.Frames.Blocked.{Run, done, more, no_memory_blocks}

infixl 20 ◌▹◌
abbrev ◌▹◌ : {late : Bool} {s t : System} → Reach late s → Step late s t → Reach late t
r ▹ st = later r st

abbrev seven : Picture
seven = record { bytes = 7 ∷ []; stamp = (3, 4) }

-- A client waits while the file "7" is read, and gets it.
abbrev served_run : (s : System) × Reach false s × (s.got 0 ≡ seven ∷ [])
unfolding load store
served_run = (
  _,
  start
      ▹ pick 0 (acquire refl)
      ▹ pick 0 wait
      ▹ work (stat 1)
      ▹ work (lock refl)
      ▹ work give
      ▹ work (allocate (λ _. 0))
      ▹ work (read_byte 7 (omega arith) refl)
      ▹ work read_end
      ▹ work (stamp (3, 4))
      ▹ broadcast refl
      ▹ work unlock
      ▹ pick 0 (reacquire refl)
      ▹ pick 0 read_size
      ▹ pick 0 copy_stamp
      ▹ pick 0 (copy_byte (omega arith) refl)
      ▹ pick 0 release,
  refl,
)

outside-IsAlive : (s : System) → s.worker_pc ≡ outside → IsAlive s
outside-IsAlive s e e' = cc

served_run-IsAlive : IsAlive served_run.0
unfolding served_run
served_run-IsAlive = outside-IsAlive served_run.0 refl

clients_get_frames_in_order_example : Sublistᴰ (seven ∷ []) (seven ∷ [])
unfolding load store
clients_get_frames_in_order_example = clients_get_frames_in_order served_run.1 served_run-IsAlive 0

got-IsWhole_example : All (IsWhole (seven ∷ [])) (seven ∷ [])
unfolding load store
got-IsWhole_example = got-IsWhole served_run.1 served_run-IsAlive 0

db_guards_the_frame_example :
    ((t u : Thread) → inside (served_run.0) t ≡ true → inside (served_run.0) u ≡ true → t ≡ u)
    × ((k : ℕ) → served_run.0.client_pc k ≢ wild)
    × (served_run.0.worker_pc ≢ crashed)
db_guards_the_frame_example = db_guards_the_frame served_run.1 served_run-IsAlive

-- `worker_cleanup` frees the picture while a client copies it.
freed_run : (s : System) × Reach false s × (s.client_pc 0 ≡ wild)
unfolding load store
freed_run = (
  _,
  start
      ▹ pick 0 (acquire refl)
      ▹ pick 0 wait
      ▹ work (stat 1)
      ▹ work (lock refl)
      ▹ work give
      ▹ work (allocate (λ _. 0))
      ▹ work (read_byte 7 (omega arith) refl)
      ▹ work read_end
      ▹ work (stamp (3, 4))
      ▹ broadcast refl
      ▹ work unlock
      ▹ pick 0 (reacquire refl)
      ▹ pick 0 read_size
      ▹ pick 0 copy_stamp
      ▹ work leave
      ▹ work clean_up
      ▹ pick 0 (bad_read (omega arith) refl),
  refl,
)

-- There is no memory for the first picture, and a client comes later.
abbrev unserved_run : (s : System) × Reach true s × (s.worker_pc ≡ stuck)
unserved_run = (_, start ▹ work (stat 1) ▹ work (lock refl) ▹ work give ▹ work no_memory, refl)

abbrev afterwards : (t : System) × Run true unserved_run.0 t
afterwards = (_, more done (pick 0 stop))

no_memory_blocks_example : (afterwards.0.worker_pc ≡ stuck) × ((k : ℕ) → afterwards.0.got k ≡ [])
no_memory_blocks_example = no_memory_blocks unserved_run.1 unserved_run.2 afterwards.1
