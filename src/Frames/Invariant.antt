-- ===== src/Frames/Invariant.antt =====
-- What holds at every interleaving: who is inside holds `db`, and who is outside leaves a whole frame.
mod Ownership
mod Content
pub use Ownership.{Owned, Step-Owned}
pub use Content.{
  Whole, latest, nothing, IsWorkerFresh, IsClientFresh, Whole-room, WorkerMove-fresh,
  ClientMove-fresh, WorkerMove-client, outside-fresh, IsKnown, newest, empty, release-IsKnown,
}
use robotica_movel.Prelude.{
  ℕ, zero, suc, ◌≡◌, ◌≢◌, refl, sym, ap, ◌∙◌, Bool, true, false, List, [], ◌∷◌, Option, none, some,
  arith, inl, inr, Bytes,
}
use robotica_movel.Frames.Threads.{
  Input, Picture, Thread, worker, client, WorkerPc, outside, opened, timed, ended, cleaned,
  ClientPc, idle, holding, waiting, woken, owning, sized, copying, gone, wild, worker_inside,
  client_inside, WorkerMove, stat,
}
use robotica_movel.Frames.System.{
  System, Step, work, broadcast, pick, update, update-All, wake, init, Reach, start, later, inside,
}
use mathlib.Core.Path.{subst}
use native.Mathlib.Decide.{ℕ_discrete}

pub record Inv (s : System) : Type 0 where
  pub owned : Owned s.owner (inside s)
  pub worker_fresh : IsWorkerFresh s.mem s.published s.worker_pc
  pub client_fresh : (k : ℕ) → IsClientFresh s.mem (s.client_pc k)

outside-Whole :
    {m : Input} {fs : List Picture} (w : WorkerPc)
    → w ≢ cleaned
    → worker_inside w ≡ false
    → IsWorkerFresh m fs w
    → Whole m fs
outside-Whole outside alive h fresh = fresh
outside-Whole (opened n) alive h fresh = fresh
outside-Whole ended alive h fresh = fresh
outside-Whole cleaned alive h fresh = absurd (alive refl)
outside-Whole w alive h fresh = absurd cc

timed-Whole :
    {m : Input} {fs : List Picture} {given : Bytes}
    → IsWorkerFresh m fs (timed given)
    → Whole m (record { bytes = given; stamp = m.timestamp } ∷ fs)
timed-Whole (size, fits, q) = latest fits q refl

wake-fresh : (m : Input) (p : ClientPc) → IsClientFresh m p → IsClientFresh m (wake p)
wake-fresh m waiting h = tt
wake-fresh m idle h = h
wake-fresh m holding h = h
wake-fresh m woken h = h
wake-fresh m owning h = h
wake-fresh m (sized n) h = h
wake-fresh m (copying n t i copied) h = h
wake-fresh m gone h = h
wake-fresh m wild h = h

-- Under the invariant no two threads are inside, and a client that is inside finds a whole picture.
module _ {s : System} (inv : Inv s) where
  pub inside_unique : (t u : Thread) → inside s t ≡ true → inside s u ≡ true → t ≡ u
  inside_unique t u a b = ground (arith, inv.owned t, inv.owned u)

  apart : worker_inside s.worker_pc ≡ true → (k : ℕ) → client_inside (s.client_pc k) ≡ false
  apart h k = ground (arith, inv.owned worker, inv.owned (client k))

  pub inside-Whole :
      s.worker_pc ≢ cleaned
      → (k : ℕ) → client_inside (s.client_pc k) ≡ true
      → Whole s.mem s.published
  inside-Whole alive k h =
      outside-Whole s.worker_pc alive (ground (arith, inv.owned worker, inv.owned (client k)))
        inv.worker_fresh

cleaned-stays :
    {m m' : Input} {o o' : Option Thread} {w w' : WorkerPc}
    → WorkerMove m o w m' o' w'
    → w ≢ cleaned
cleaned-stays (stat n) e = absurd cc
cleaned-stays mv e = absurd cc

-- `worker_cleanup` has not run.
abbrev pub IsAlive : System → Type 0
IsAlive s = s.worker_pc ≢ cleaned

pub Step-IsAlive : {late : Bool} {s t : System} → Step late s t → IsAlive t → IsAlive s
Step-IsAlive (work mv) alive = cleaned-stays mv
Step-IsAlive (broadcast e) alive = λ e'. cc
Step-IsAlive (pick k mv) alive = alive

pub Step-Inv : {late : Bool} {s t : System} → Step late s t → IsAlive t → Inv s → Inv t
Step-Inv {late = late} {s} (work mv) alive inv = record {
  owned = Step-Owned {late = late} {s = s} (work mv) inv.owned;
  worker_fresh = WorkerMove-fresh s.mem s.published mv inv.worker_fresh;
  client_fresh =
      λ k. WorkerMove-client mv alive (s.client_pc k) (λ h. apart inv h k) (inv.client_fresh k);
}
Step-Inv {late = late} {s} (broadcast e) alive inv = record {
  owned = Step-Owned {late = late} {s = s} (broadcast e) inv.owned;
  worker_fresh = timed-Whole (subst (IsWorkerFresh s.mem s.published) e inv.worker_fresh);
  client_fresh = λ k. wake-fresh s.mem (s.client_pc k) (inv.client_fresh k);
}
Step-Inv {late = late} {s} (pick k mv) alive inv = record {
  owned = Step-Owned {late = late} {s = s} (pick k mv) inv.owned;
  worker_fresh = inv.worker_fresh;
  client_fresh =
      update-All (IsClientFresh s.mem) s.client_pc k
        (ClientMove-fresh s.mem s.published mv (inside-Whole inv alive k) (inv.client_fresh k))
        inv.client_fresh;
}

Owned-init : Owned init.owner (inside init)
Owned-init worker = (λ h. cc, λ h. cc)
Owned-init (client k) = (λ h. cc, λ h. cc)

Inv-init : Inv init
Inv-init = record { owned = Owned-init; worker_fresh = nothing refl; client_fresh = λ k. tt }

pub Reach-Inv : {late : Bool} {s : System} → Reach late s → IsAlive s → Inv s
Reach-Inv start alive = Inv-init
Reach-Inv (later r st) alive = Step-Inv st alive (Reach-Inv r (Step-IsAlive st alive))
