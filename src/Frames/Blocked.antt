-- ===== src/Frames/Blocked.antt =====
-- plugins/input_file/input_file.c: `break` with `db` locked, when there is no memory for the picture.
use robotica_movel.Prelude.{
  ℕ, ◌≡◌, ◌≢◌, refl, sym, ap, ◌∙◌, Bool, false, List, Option, arith, Bytes,
}
use native.Mathlib.Decide.{ℕ_discrete}
use robotica_movel.Frames.Threads.{
  Input, Picture, Thread, worker, client, WorkerPc, timed, stuck, WorkerMove, stat, ClientPc,
  ClientMove, release, client_inside, worker_inside,
}
use robotica_movel.Frames.System.{
  System, Step, work, broadcast, pick, update, deliver, Reach, later,
}
use robotica_movel.Frames.Invariant.{Inv, Reach-Inv, IsAlive}

-- What follows a state.
pub data Run (late : Bool) (s : System) : System → Type 0 where
  done : Run late s s
  more : {t u : System} → Run late s t → Step late t u → Run late s u

pub Run-Reach : {late : Bool} {s t : System} → Reach late s → Run late s t → Reach late t
Run-Reach r done = r
Run-Reach r (more run st) = later (Run-Reach r run) st

stuck-moves :
    {m m' : Input} {o o' : Option Thread} {w w' : WorkerPc} → WorkerMove m o w m' o' w' → w ≢ stuck
stuck-moves (stat n) e = absurd cc
stuck-moves mv e = absurd cc

stuck-IsAlive : (s : System) → s.worker_pc ≡ stuck → IsAlive s
stuck-IsAlive s e = λ e'. cc

timed-alive : {given : Bytes} → stuck ≢ timed given
timed-alive e = cc

outside-deliver :
    {late : Bool} {k : ℕ} {m : Input} {o o' : Option Thread} {p p' : ClientPc} {d : Option Picture}
    (got : List Picture)
    → ClientMove late k m o p o' p' d
    → client_inside p ≡ false
    → deliver d got ≡ got
outside-deliver got release h = absurd cc
outside-deliver got mv h = refl

stuck-Step :
    {late : Bool} {s t : System}
    → Inv s
    → s.worker_pc ≡ stuck
    → Step late s t
    → (t.worker_pc ≡ stuck) × ((k : ℕ) → t.got k ≡ s.got k)
stuck-Step inv e (work mv) = absurd (stuck-moves mv e)
stuck-Step inv e (broadcast e') = absurd (timed-alive (sym e ∙ e'))
stuck-Step {s} inv e (pick k {d} mv) = (e, by_client)
  where
    outside_db : client_inside (s.client_pc k) ≡ false
    outside_db = ground (arith, ap worker_inside e, inv.owned worker, inv.owned (client k))

    by_client : (j : ℕ) → update s.got k (deliver d (s.got k)) j ≡ s.got j
    by_client j = elim (ℕ_discrete j k) [
      | yes e' ↦ ground (arith, ap s.got e', outside-deliver (s.got k) mv outside_db)
      | no n ↦ ground arith
    ]

-- From a reachable state in which the worker has left its loop for want of memory, no client gets a
-- frame any more, whatever the threads do: `db` stays locked.
pub no_memory_blocks :
    {late : Bool} {s t : System}
    → Reach late s
    → s.worker_pc ≡ stuck
    → Run late s t
    → (t.worker_pc ≡ stuck) × ((k : ℕ) → t.got k ≡ s.got k)
no_memory_blocks r e done = (e, λ k. refl)
no_memory_blocks r e (more {t = t} run st) =
    let before = no_memory_blocks r e run in
    let after = stuck-Step (Reach-Inv (Run-Reach r run) (stuck-IsAlive t before.0)) before.0 st in
    (after.0, λ k. after.1 k ∙ before.1 k)
