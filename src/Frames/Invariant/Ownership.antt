-- ===== src/Frames/Invariant/Ownership.antt =====
-- A thread is between the lock and the unlock exactly when it is the owner of the mutex.
use robotica_movel.Prelude.{
  ℕ, ◌≡◌, ◌≢◌, ◌↔◌, refl, sym, ap, ◌∙◌, Bool, true, false, Option, none, some, arith, ◌⊎◌, inl, inr,
  Bytes,
}
use robotica_movel.Frames.Threads.{
  Input, Picture, Thread, worker, client, WorkerPc, timed, announced, WorkerMove, stat, leave, lock,
  give, allocate, no_memory, read_byte, bad_write, read_end, read_fails, give_up, stamp, unlock,
  clean_up, worker_inside, ClientPc, idle, holding, waiting, woken, owning, sized, copying, gone,
  wild, ClientMove, stop, acquire, wait, spurious, reacquire, read_size, no_room, copy_stamp,
  copy_byte, bad_read, release, client_inside,
}
use robotica_movel.Frames.System.{System, update, wake, Step, work, broadcast, pick, inside}
use native.Mathlib.Decide.{ℕ_discrete}

abbrev pub Owned : Option Thread → (Thread → Bool) → Type 0
Owned o within = (t : Thread) → (within t ≡ true) ↔ (o ≡ some t)

-- What a move of the thread `me` does to the owner and to its own place.
data Shift (me : Thread) : Option Thread → Bool → Option Thread → Bool → Type 0 where
  stays : {o : Option Thread} {b : Bool} → Shift me o b o b
  takes : {o : Option Thread} → o ≡ none → Shift me o false (some me) true
  gives : {o : Option Thread} → Shift me o true none false

WorkerMove-Shift :
    {m m' : Input} {o o' : Option Thread} {w w' : WorkerPc}
    → WorkerMove m o w m' o' w'
    → Shift worker o (worker_inside w) o' (worker_inside w')
WorkerMove-Shift (stat n) = stays
WorkerMove-Shift leave = stays
WorkerMove-Shift (lock e) = takes e
WorkerMove-Shift give = stays
WorkerMove-Shift (allocate byte) = stays
WorkerMove-Shift no_memory = stays
WorkerMove-Shift (read_byte b lt e) = stays
WorkerMove-Shift (bad_write b lt e) = stays
WorkerMove-Shift read_end = stays
WorkerMove-Shift read_fails = stays
WorkerMove-Shift give_up = gives
WorkerMove-Shift (stamp t) = stays
WorkerMove-Shift unlock = gives
WorkerMove-Shift clean_up = stays

ClientMove-Shift :
    {late : Bool} {k : ℕ} {m : Input} {o o' : Option Thread} {p p' : ClientPc} {d : Option Picture}
    → ClientMove late k m o p o' p' d
    → Shift (client k) o (client_inside p) o' (client_inside p')
ClientMove-Shift stop = stays
ClientMove-Shift (acquire e) = takes e
ClientMove-Shift wait = gives
ClientMove-Shift (spurious e) = stays
ClientMove-Shift (reacquire e) = takes e
ClientMove-Shift read_size = stays
ClientMove-Shift no_room = gives
ClientMove-Shift copy_stamp = stays
ClientMove-Shift (copy_byte lt e) = stays
ClientMove-Shift (bad_read lt e) = stays
ClientMove-Shift release = gives

Thread-cases : (a b : Thread) → (a ≡ b) ⊎ (a ≢ b)
Thread-cases worker worker = inl refl
Thread-cases worker (client k) = inr (λ e. cc)
Thread-cases (client k) worker = inr (λ e. cc)
Thread-cases (client j) (client k) = elim (ℕ_discrete j k) [
  | yes e ↦ inl (ap client e)
  | no n ↦ inr (λ e. n cc)
]

Shift-Owned :
    {me : Thread} {o o' : Option Thread} {b b' : Bool} {within within' : Thread → Bool}
    → Shift me o b o' b'
    → within me ≡ b
    → within' me ≡ b'
    → ((t : Thread) → t ≢ me → within' t ≡ within t)
    → Owned o within
    → Owned o' within'
Shift-Owned {me} stays h h' same own t = elim (Thread-cases t me) [
  | inl e ↦ ground (arith, own t, own me)
  | inr n ↦ ground (arith, own t, own me, same t n)
]
Shift-Owned {me} (takes e) h h' same own t = elim (Thread-cases t me) [
  | inl e ↦ ground (arith, own t, own me)
  | inr n ↦ ground (arith, own t, own me, same t n)
]
Shift-Owned {me} gives h h' same own t = elim (Thread-cases t me) [
  | inl e ↦ ground (arith, own t, own me)
  | inr n ↦ ground (arith, own t, own me, same t n)
]

wake-inside : (p : ClientPc) → client_inside (wake p) ≡ client_inside p
wake-inside idle = refl
wake-inside holding = refl
wake-inside waiting = refl
wake-inside woken = refl
wake-inside owning = refl
wake-inside (sized n) = refl
wake-inside (copying n t i copied) = refl
wake-inside gone = refl
wake-inside wild = refl

module _ (s : System) where
  work-others :
      (w : WorkerPc) (t : Thread) → t ≢ worker → inside (record s { worker_pc = w }) t ≡ inside s t
  work-others w worker n = absurd (n refl)
  work-others w (client j) n = refl

  pick-others :
      (k : ℕ) (p : ClientPc) (t : Thread)
      → t ≢ client k
      → inside (record s { client_pc = update s.client_pc k p }) t ≡ inside s t
  pick-others k p worker n = refl
  pick-others k p (client j) n = elim (ℕ_discrete j k) [
    | yes e ↦ absurd (n (ap client e))
    | no n' ↦ ground arith
  ]

  pick-itself : (k : ℕ) (p : ClientPc) → client_inside (update s.client_pc k p k) ≡ client_inside p
  pick-itself k p = ground arith

  broadcast-inside :
      {given : Bytes}
      → s.worker_pc ≡ timed given
      → (t : Thread)
      → inside (record s { worker_pc = announced; client_pc = λ k. wake (s.client_pc k) }) t
        ≡ inside s t
  broadcast-inside e worker = rw e
  broadcast-inside e (client k) = wake-inside (s.client_pc k)

pub Step-Owned :
    {late : Bool} {s t : System}
    → Step late s t
    → Owned s.owner (inside s)
    → Owned t.owner (inside t)
Step-Owned {s} (work {w} mv) own = Shift-Owned (WorkerMove-Shift mv) refl refl (work-others s w) own
Step-Owned {s} (broadcast e) own = λ t.
    (λ h. (own t).0 (sym (broadcast-inside s e t) ∙ h), λ h. broadcast-inside s e t ∙ (own t).1 h)
Step-Owned {s} (pick k {p} mv) own =
    Shift-Owned (ClientMove-Shift mv) refl (pick-itself s k p) (pick-others s k p) own
