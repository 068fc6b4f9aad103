-- ===== src/Frames/Order.antt =====
-- Without a spurious wake-up a client gets the pictures in the order of their broadcasts.
use robotica_movel.Prelude.{ℕ, ◌≡◌, refl, sym, true, false, List, [], ◌∷◌, Option, Bytes}
use mathlib.Core.List.{Sublistᴰ}
use mathlib.Core.Path.{subst}
use robotica_movel.Frames.Threads.{
  Input, Picture, Thread, ClientPc, idle, holding, waiting, woken, owning, sized, copying, gone,
  wild, ClientMove, stop, acquire, wait, spurious, reacquire, read_size, no_room, copy_stamp,
  copy_byte, bad_read, release, client_inside,
}
use robotica_movel.Frames.System.{
  System, Step, work, broadcast, pick, update-All_pair, wake, deliver, Reach, start, later,
}
use robotica_movel.Frames.Safety.{Picture-eq}
use robotica_movel.Frames.Invariant.{
  Inv, Reach-Inv, IsAlive, Step-IsAlive, inside-Whole, Whole, IsClientFresh, IsKnown, newest, empty,
  release-IsKnown,
}

-- The frames of at least one byte.
abbrev keep : Bytes → Picture → List Picture → List Picture
keep [] f fs = fs
keep (b ∷ bs) f fs = f ∷ fs

abbrev pub pictures : List Picture → List Picture
pictures [] = []
pictures (f ∷ fs) = keep f.bytes f (pictures fs)

-- Everything in `l` is older than the newest frame.
data IsOlder (l : List Picture) : List Picture → Type 0 where
  older : {f : Picture} {fs : List Picture} → Sublistᴰ l fs → IsOlder l (f ∷ fs)

-- A client between its wake-up and the unlock has not got the newest frame yet.
abbrev IsBehind : List Picture → ClientPc → List Picture → Type 0
IsBehind fs woken l = IsOlder l fs
IsBehind fs owning l = IsOlder l fs
IsBehind fs (sized n) l = IsOlder l fs
IsBehind fs (copying n t i copied) l = IsOlder l fs
IsBehind fs wild l = IsOlder l fs
IsBehind fs _ l = Sublistᴰ l fs

IsOlder-sub : {l fs : List Picture} → IsOlder l fs → Sublistᴰ l fs
IsOlder-sub (older sub) = Sublistᴰ.cons sub

wake-IsBehind :
    (f : Picture) (fs l : List Picture) (p : ClientPc)
    → IsBehind fs p l
    → IsBehind (f ∷ fs) (wake p) l
wake-IsBehind f fs l idle h = Sublistᴰ.cons h
wake-IsBehind f fs l holding h = Sublistᴰ.cons h
wake-IsBehind f fs l waiting h = older h
wake-IsBehind f fs l woken h = older (IsOlder-sub h)
wake-IsBehind f fs l owning h = older (IsOlder-sub h)
wake-IsBehind f fs l (sized n) h = older (IsOlder-sub h)
wake-IsBehind f fs l (copying n t i copied) h = older (IsOlder-sub h)
wake-IsBehind f fs l gone h = Sublistᴰ.cons h
wake-IsBehind f fs l wild h = older (IsOlder-sub h)

keep-sub :
    (f : Picture) {l fs : List Picture}
    → IsKnown f fs
    → IsOlder l fs
    → Sublistᴰ (keep f.bytes f l) fs
keep-sub f {l} (newest {g} {fs} p q) (older sub) = by_bytes f.bytes
  where
    by_bytes : (bs : Bytes) → Sublistᴰ (keep bs f l) (g ∷ fs)
    by_bytes [] = Sublistᴰ.cons sub
    by_bytes (b ∷ bs) = Sublistᴰ.cons-cons (Picture-eq p q) sub
keep-sub f {l} {fs} (empty e) old =
    subst (λ bs. Sublistᴰ (keep bs f l) fs) (sym e) (IsOlder-sub old)

ClientMove-IsBehind :
    {k : ℕ} {m : Input} {o o' : Option Thread} {p p' : ClientPc} {d : Option Picture}
    (fs got : List Picture)
    → ClientMove false k m o p o' p' d
    → (client_inside p ≡ true → Whole m fs)
    → IsClientFresh m p
    → IsBehind fs p (pictures got)
    → IsBehind fs p' (pictures (deliver d got))
ClientMove-IsBehind fs got stop whole fresh h = h
ClientMove-IsBehind fs got (acquire e) whole fresh h = h
ClientMove-IsBehind fs got wait whole fresh h = h
ClientMove-IsBehind fs got (spurious e) whole fresh h = absurd cc
ClientMove-IsBehind fs got (reacquire e) whole fresh h = h
ClientMove-IsBehind fs got read_size whole fresh h = h
ClientMove-IsBehind fs got no_room whole fresh h = IsOlder-sub h
ClientMove-IsBehind fs got copy_stamp whole fresh h = h
ClientMove-IsBehind fs got (copy_byte lt e) whole fresh h = h
ClientMove-IsBehind fs got (bad_read lt e) whole fresh h = h
ClientMove-IsBehind fs got release whole fresh h = keep-sub _ (release-IsKnown (whole refl) fresh) h

abbrev IsOrdered : System → Type 0
IsOrdered s = (k : ℕ) → IsBehind s.published (s.client_pc k) (pictures (s.got k))

Step-IsOrdered : {s t : System} → Step false s t → IsAlive t → Inv s → IsOrdered s → IsOrdered t
Step-IsOrdered (work mv) alive inv h = h
Step-IsOrdered {s} (broadcast e) alive inv h =
    λ k. wake-IsBehind _ s.published (pictures (s.got k)) (s.client_pc k) (h k)
Step-IsOrdered {s} (pick k mv) alive inv h =
    update-All_pair (λ p fs. IsBehind s.published p (pictures fs)) s.client_pc s.got k
      (ClientMove-IsBehind s.published (s.got k) mv (inside-Whole inv alive k) (inv.client_fresh k)
        (h k))
      h

Reach-IsOrdered : {s : System} → Reach false s → IsAlive s → IsOrdered s
Reach-IsOrdered start alive = λ k. Sublistᴰ.slnil
Reach-IsOrdered (later r st) alive =
    let before = Step-IsAlive st alive in
    Step-IsOrdered st alive (Reach-Inv r before) (Reach-IsOrdered r before)

-- When `pthread_cond_wait` returns after a broadcast alone, then in every reachable state before
-- `worker_cleanup`, which frees the picture without `db`, for any number of clients and any interleaving, the pictures of at least one byte that a client has got are
-- a subsequence of the frames published, each with its own time stamp: none is torn, none comes twice,
-- and none comes out of order.
pub clients_get_frames_in_order :
    {s : System} → Reach false s → IsAlive s → (k : ℕ) → Sublistᴰ (pictures (s.got k)) s.published
clients_get_frames_in_order {s} r alive k = sub (s.client_pc k) (Reach-IsOrdered r alive k)
  where
    sub :
        (p : ClientPc)
        → IsBehind s.published p (pictures (s.got k))
        → Sublistᴰ (pictures (s.got k)) s.published
    sub idle h = h
    sub holding h = h
    sub waiting h = h
    sub woken h = IsOlder-sub h
    sub owning h = IsOlder-sub h
    sub (sized n) h = IsOlder-sub h
    sub (copying n t i copied) h = IsOlder-sub h
    sub gone h = h
    sub wild h = IsOlder-sub h
