-- ===== src/Frames/Invariant/Content.antt =====
-- What the locals of a thread say about the picture, and the picture about the frames published.
use robotica_movel.Prelude.{
  ℕ, ◌≤◌, ◌<◌, ◌≡◌, ◌≢◌, refl, sym, ap, ◌∙◌, Bool, true, false, List, [], ◌∷◌, ◌++◌, Option, some,
  arith, Bytes, length, length-append,
}
use robotica_movel.Frames.Buffer.{
  Buffer, store, room, image, image-suc, load-room, store-room, room-store, load-store, image-store,
}
use robotica_movel.Frames.Threads.{
  Timeval, Input, Picture, Thread, WorkerPc, locked, emptied, filling, filled, timed, failed, stuck,
  crashed, WorkerMove, stat, leave, lock, give, allocate, no_memory, read_byte, bad_write, read_end,
  read_fails, give_up, stamp, unlock, clean_up, cleaned, worker_inside, ClientPc, idle, holding,
  waiting, woken, owning, sized, copying, gone, wild, ClientMove, stop, acquire, wait, spurious,
  reacquire, read_size, no_room, copy_stamp, copy_byte, bad_read, release, client_inside,
}

-- The input holds the frame published last, or no byte.
pub data Whole (m : Input) : List Picture → Type 0 where
  latest :
      {f : Picture} {fs : List Picture}
      → m.size ≤ room m.buf
      → image m.buf m.size ≡ f.bytes
      → m.timestamp ≡ f.stamp
      → Whole m (f ∷ fs)
  nothing : {fs : List Picture} → m.size ≡ 0 → Whole m fs

pub Whole-room : {m : Input} {fs : List Picture} → Whole m fs → m.size ≤ room m.buf
Whole-room (latest fits q t) = fits
Whole-room (nothing z) = omega arith

abbrev IsFilled : Input → Bytes → Type 0
IsFilled m given = (m.size ≡ length given) × (m.size ≤ room m.buf) × (image m.buf m.size ≡ given)

abbrev pub IsWorkerFresh : Input → List Picture → WorkerPc → Type 0
IsWorkerFresh m fs (locked n) = Unit
IsWorkerFresh m fs (emptied n) = Unit
IsWorkerFresh m fs (filling n given) =
    (n ≤ room m.buf) × (length given ≤ n) × (image m.buf (length given) ≡ given)
IsWorkerFresh m fs (filled given) = IsFilled m given
IsWorkerFresh m fs (timed given) = IsFilled m given
IsWorkerFresh m fs failed = m.size ≡ 0
IsWorkerFresh m fs stuck = Unit
IsWorkerFresh m fs cleaned = Unit
IsWorkerFresh m fs crashed = ⊥
IsWorkerFresh m fs _ = Whole m fs

abbrev pub IsClientFresh : Input → ClientPc → Type 0
IsClientFresh m (sized n) = n ≡ m.size
IsClientFresh m (copying n t i copied) =
    (n ≡ m.size) × (t ≡ m.timestamp) × (i ≤ n) × (copied ≡ image m.buf i)
IsClientFresh m wild = ⊥
IsClientFresh m _ = Unit

module _ (m : Input) (fs : List Picture) where
  store_extends :
      (b : ℕ) {n : ℕ} {given : Bytes} {buf' : Buffer}
      → length given < n
      → store m.buf (length given) b ≡ some buf'
      → image m.buf (length given) ≡ given
      → image buf' (length (given ++ b ∷ [])) ≡ given ++ b ∷ []
  store_extends b {n} {given} {buf'} lt e q =
      ap (image buf') (omega (arith, length-append given (b ∷ [])))
      ∙ image-suc buf' (length given) b (load-store m.buf buf' (length given) b e)
      ∙ ap (◌++ b ∷ []) (image-store m.buf buf' (length given) (length given) b (omega arith) e ∙ q)

  pub WorkerMove-fresh :
      {m' : Input} {o o' : Option Thread} {w w' : WorkerPc}
      → WorkerMove m o w m' o' w'
      → IsWorkerFresh m fs w
      → IsWorkerFresh m' fs w'
  unfolding image room
  WorkerMove-fresh (stat n) h = h
  WorkerMove-fresh leave h = h
  WorkerMove-fresh (lock e) h = tt
  WorkerMove-fresh give h = tt
  WorkerMove-fresh (allocate byte) h = (omega arith, omega arith, refl)
  WorkerMove-fresh no_memory h = tt
  WorkerMove-fresh (read_byte {n} {given} {buf'} b lt e) (fits, le, q) = (
    omega (arith, room-store m.buf buf' (length given) b e),
    omega (arith, length-append given (b ∷ [])),
    store_extends b lt e q,
  )
  WorkerMove-fresh (bad_write {given} b lt e) (fits, le, q) =
      store-room m.buf (length given) b (omega arith) e
  WorkerMove-fresh read_end (fits, le, q) = (refl, omega arith, q)
  WorkerMove-fresh read_fails h = refl
  WorkerMove-fresh give_up h = nothing h
  WorkerMove-fresh (stamp t) h = h
  WorkerMove-fresh unlock h = h
  WorkerMove-fresh clean_up h = tt

  pub ClientMove-fresh :
      {late : Bool} {k : ℕ} {o o' : Option Thread} {p p' : ClientPc} {d : Option Picture}
      → ClientMove late k m o p o' p' d
      → (client_inside p ≡ true → Whole m fs)
      → IsClientFresh m p
      → IsClientFresh m p'
  unfolding image
  ClientMove-fresh stop whole h = tt
  ClientMove-fresh (acquire e) whole h = tt
  ClientMove-fresh wait whole h = tt
  ClientMove-fresh (spurious e) whole h = tt
  ClientMove-fresh (reacquire e) whole h = tt
  ClientMove-fresh read_size whole h = refl
  ClientMove-fresh no_room whole h = tt
  ClientMove-fresh copy_stamp whole h = (h, refl, omega arith, refl)
  ClientMove-fresh (copy_byte {n} {i} {b} lt e) whole (size, t, le, q) =
      (size, t, omega arith, ap (◌++ b ∷ []) q ∙ sym (image-suc m.buf i b e))
  ClientMove-fresh (bad_read {n} {i} lt e) whole (size, t, le, q) =
      load-room m.buf i (omega (arith, Whole-room (whole refl))) e
  ClientMove-fresh release whole h = tt

-- A move of the worker but `worker_cleanup` leaves what the threads of the clients know: it changes
-- the input inside the mutex alone.
pub outside-fresh : (m : Input) (p : ClientPc) → client_inside p ≡ false → IsClientFresh m p
outside-fresh m idle h = tt
outside-fresh m holding h = tt
outside-fresh m waiting h = tt
outside-fresh m woken h = tt
outside-fresh m owning h = tt
outside-fresh m (sized n) h = absurd cc
outside-fresh m (copying n t i copied) h = absurd cc
outside-fresh m gone h = tt
outside-fresh m wild h = absurd cc

pub WorkerMove-client :
    {m m' : Input} {o o' : Option Thread} {w w' : WorkerPc}
    → WorkerMove m o w m' o' w'
    → w' ≢ cleaned
    → (p : ClientPc) → (worker_inside w ≡ true → client_inside p ≡ false)
    → IsClientFresh m p
    → IsClientFresh m' p
WorkerMove-client (stat n) alive p apart h = h
WorkerMove-client leave alive p apart h = h
WorkerMove-client (lock e) alive p apart h = h
WorkerMove-client clean_up alive p apart h = absurd (alive refl)
WorkerMove-client mv alive p apart h = outside-fresh _ p (apart refl)

-- The frame that a client gets is the one published last, or has no byte.
pub data IsKnown (f : Picture) : List Picture → Type 0 where
  newest :
      {g : Picture} {fs : List Picture} → f.bytes ≡ g.bytes → f.stamp ≡ g.stamp → IsKnown f (g ∷ fs)
  empty : {fs : List Picture} → f.bytes ≡ [] → IsKnown f fs

pub release-IsKnown :
    {m : Input} {fs : List Picture} {n : ℕ} {t : Timeval} {copied : Bytes}
    → Whole m fs
    → IsClientFresh m (copying n t n copied)
    → IsKnown (record { bytes = copied; stamp = t }) fs
unfolding image
release-IsKnown {m} (latest fits q e) (size, t, le, r) =
    newest (r ∙ ap (image m.buf) size ∙ q) (t ∙ e)
release-IsKnown {m} (nothing z) (size, t, le, r) = empty (r ∙ ap (image m.buf) (size ∙ z))
