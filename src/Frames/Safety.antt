-- ===== src/Frames/Safety.antt =====
-- What the clients get in every reachable state, and what they read.
use robotica_movel.Prelude.{
  ℕ, ◌≡◌, ◌≢◌, ◌⊎◌, refl, Bool, true, List, [], ◌∷◌, Option, inl, inr, All,
}
use mathlib.Core.List.{Memᴰ}
use mathlib.Core.Path.{subst}
use robotica_movel.Frames.Threads.{
  Input, Picture, Thread, crashed, ClientPc, wild, ClientMove, release, client_inside,
}
use robotica_movel.Frames.System.{
  System, work, broadcast, pick, update-All, deliver, Reach, start, later, inside,
}
use robotica_movel.Frames.Invariant.{
  Reach-Inv, IsAlive, Step-IsAlive, inside_unique, inside-Whole, Whole, IsWorkerFresh,
  IsClientFresh, IsKnown, newest, empty, release-IsKnown,
}

pub Picture-eq : {f g : Picture} → f.bytes ≡ g.bytes → f.stamp ≡ g.stamp → f ≡ g
Picture-eq p q = λ i. record { bytes = p i; stamp = q i }

-- Every frame that a client has got is whole.
abbrev pub IsWhole : List Picture → Picture → Type 0
IsWhole fs f = Memᴰ f fs ⊎ (f.bytes ≡ [])

abbrev AreWhole : List Picture → List Picture → Type 0
AreWhole fs got = All (IsWhole fs) got

AreWhole-grow : (f : Picture) (fs got : List Picture) → AreWhole fs got → AreWhole (f ∷ fs) got
AreWhole-grow f fs [] h = tt
AreWhole-grow f fs (g ∷ got) (inl m, rest) = (inl (Memᴰ.tail m), AreWhole-grow f fs got rest)
AreWhole-grow f fs (g ∷ got) (inr e, rest) = (inr e, AreWhole-grow f fs got rest)

IsKnown-IsWhole : {f : Picture} {fs : List Picture} → IsKnown f fs → IsWhole fs f
IsKnown-IsWhole (newest p q) = inl (Memᴰ.head (Picture-eq p q))
IsKnown-IsWhole (empty e) = inr e

ClientMove-AreWhole :
    {late : Bool} {k : ℕ} {m : Input} {o o' : Option Thread} {p p' : ClientPc} {d : Option Picture}
    (fs got : List Picture)
    → ClientMove late k m o p o' p' d
    → (client_inside p ≡ true → Whole m fs)
    → IsClientFresh m p
    → AreWhole fs got
    → AreWhole fs (deliver d got)
ClientMove-AreWhole fs got release whole fresh h =
    (IsKnown-IsWhole (release-IsKnown (whole refl) fresh), h)
ClientMove-AreWhole fs got mv whole fresh h = h

Reach-AreWhole :
    {late : Bool} {s : System} → Reach late s → IsAlive s → (k : ℕ) → AreWhole s.published (s.got k)
Reach-AreWhole start alive k = tt
Reach-AreWhole {late = late} (later {s} r (work mv)) alive k =
    Reach-AreWhole r (Step-IsAlive {late = late} {s = s} (work mv) alive) k
Reach-AreWhole {late = late} (later {s} r (broadcast e)) alive k =
    AreWhole-grow _ s.published (s.got k)
      (Reach-AreWhole r (Step-IsAlive {late = late} {s = s} (broadcast e) alive) k)
Reach-AreWhole (later {s} r (pick j mv)) alive k =
    update-All (AreWhole s.published) s.got j
      (ClientMove-AreWhole s.published (s.got j) mv (inside-Whole (Reach-Inv r alive) alive j)
        ((Reach-Inv r alive).client_fresh j) (Reach-AreWhole r alive j))
      (Reach-AreWhole r alive) k

-- In every reachable state before `worker_cleanup`, which frees the picture without `db`, for any
-- number of clients and any interleaving, spurious wake-ups included: each frame that a client has got is one of the frames published, whole and with its own
-- time stamp, or has no byte.
pub got-IsWhole :
    {late : Bool} {s : System}
    → Reach late s
    → IsAlive s
    → (k : ℕ) → All (IsWhole s.published) (s.got k)
got-IsWhole = Reach-AreWhole

-- In every reachable state before `worker_cleanup`, which frees the picture without `db`: no two threads are between the lock of `db` and its unlock, no client
-- has read outside allocated memory, freed memory included, and the worker has not written outside it.
pub db_guards_the_frame :
    {late : Bool} {s : System}
    → Reach late s
    → IsAlive s
    → ((t u : Thread) → inside s t ≡ true → inside s u ≡ true → t ≡ u)
      × ((k : ℕ) → s.client_pc k ≢ wild)
      × (s.worker_pc ≢ crashed)
db_guards_the_frame {s} r alive = (
  inside_unique (Reach-Inv r alive),
  λ k e. subst (IsClientFresh s.mem) e ((Reach-Inv r alive).client_fresh k),
  λ e. subst (IsWorkerFresh s.mem s.published) e (Reach-Inv r alive).worker_fresh,
)
