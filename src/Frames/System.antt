-- ===== src/Frames/System.antt =====
-- The threads over one `struct _input`, interleaved in any order.
use robotica_movel.Prelude.{
  ℕ, ◌≡◌, Bool, true, false, List, [], ◌∷◌, Option, none, some, Bytes, ◌==◌, if◌then◌else◌,
}
use robotica_movel.Frames.Buffer.{null}
use robotica_movel.Frames.Threads.{
  Input, Picture, Thread, worker, client, WorkerPc, outside, timed, announced, WorkerMove,
  worker_inside, ClientPc, idle, waiting, woken, ClientMove, client_inside,
}

-- `published` holds the frames at the time of their broadcast, and `got` what each client has got;
-- both the newest first.
pub record System : Type 0 where
  pub mem : Input
  pub owner : Option Thread
  pub worker_pc : WorkerPc
  pub client_pc : ℕ → ClientPc
  pub got : ℕ → List Picture
  pub published : List Picture

abbrev pub update {ℓ} : {A : Type ℓ} → (ℕ → A) → ℕ → A → ℕ → A
update f i a j = if j == i then a else f j

pub update-All_pair :
    {A B : Type 0} (P : A → B → Type 0) (f : ℕ → A) (g : ℕ → B) (k : ℕ) {a : A} {b : B}
    → P a b
    → ((j : ℕ) → P (f j) (g j))
    → (j : ℕ) → P (update f k a j) (update g k b j)
update-All_pair P f g k {a} {b} h rest j = by_test (j == k)
  where
    by_test : (t : Bool) → P (if t then a else f j) (if t then b else g j)
    by_test true = h
    by_test false = rest j

pub update-All :
    {A : Type 0} (P : A → Type 0) (f : ℕ → A) (k : ℕ) {a : A}
    → P a
    → ((j : ℕ) → P (f j))
    → (j : ℕ) → P (update f k a j)
update-All P f k {a} h rest j = by_test (j == k)
  where
    by_test : (t : Bool) → P (if t then a else f j)
    by_test true = h
    by_test false = rest j

-- `pthread_cond_broadcast`
abbrev pub wake : ClientPc → ClientPc
wake waiting = woken
wake p = p

abbrev pub deliver : Option Picture → List Picture → List Picture
deliver none fs = fs
deliver (some f) fs = f ∷ fs

pub data Step (late : Bool) (s : System) : System → Type 0 where
  work :
      {m : Input} {o : Option Thread} {w : WorkerPc}
      → WorkerMove s.mem s.owner s.worker_pc m o w
      → Step late s (record s { mem = m; owner = o; worker_pc = w })
  broadcast :
      {given : Bytes}
      → s.worker_pc ≡ timed given
      → Step late s (record s {
        worker_pc = announced;
        client_pc = λ k. wake (s.client_pc k);
        published = record { bytes = given; stamp = s.mem.timestamp } ∷ s.published;
      })
  pick :
      (k : ℕ) {o : Option Thread} {p : ClientPc} {d : Option Picture}
      → ClientMove late k s.mem s.owner (s.client_pc k) o p d
      → Step late s (record s {
        owner = o;
        client_pc = update s.client_pc k p;
        got = update s.got k (deliver d (s.got k));
      })

-- The state of the program when the plugins start: `global` is zero.
abbrev pub init : System
init = record {
  mem = record { buf = null; size = 0; timestamp = (0, 0) };
  owner = none;
  worker_pc = outside;
  client_pc = λ _. idle;
  got = λ _. [];
  published = [];
}

pub data Reach (late : Bool) : System → Type 0 where
  start : Reach late init
  later : {s t : System} → Reach late s → Step late s t → Reach late t

abbrev pub inside : System → Thread → Bool
inside s worker = worker_inside s.worker_pc
inside s (client k) = client_inside (s.client_pc k)
