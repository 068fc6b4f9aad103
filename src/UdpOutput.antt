-- ===== src/UdpOutput.antt =====
-- plugins/output_udp/output_udp.c: the thread that stores a picture for each datagram.
pub mod Options
mod Tests
use robotica_movel.Prelude.{
  ℕ, zero, suc, ◌+◌, ◌^◌, ◌≤◌, ◌<◌, Bool, true, false, not, ◌&&◌, ◌||◌, List, [], ◌∷◌, ◌++◌, map,
  Option, none, some, ◌≡◌, refl, sym, ap, ◌∙◌, arith, ltb, leb, ◌==◌, if◌then◌else◌, Bool-cases,
  inl, inr, Bytes, codes, length, take, take_all, All, append_assoc, append-nil,
}
use mathlib.Core.Path.{subst}
use robotica_movel.Prelude.Int.{ℤ, pos, negsuc}
use robotica_movel.CString.{c_string}

-- A round: the datagram, the fresh frame, and what the calls report: `written` is the number of bytes
-- that `write` takes, missing where it fails; `recvfrom` itself does not fail.
pub record Round : Type 0 where
  pub datagram : Bytes
  pub frame : Bytes
  pub has_memory : Bool
  pub opens : Bool
  pub written : Option ℕ

-- What the thread changes: `max_frame_size`, the files opened with O_TRUNC, each with the bytes
-- written to it, the datagrams sent back, and the names that the user's command got.
pub record UdpWorker : Type 0 where
  pub max_frame_size : ℕ
  pub files : List (Bytes × Bytes)
  pub replies : List Bytes
  pub commands : List Bytes

-- `udpbuffer` has 1024 bytes, and `recvfrom` drops those of the datagram that it has no place for.
abbrev pub received : Round → Bytes
received r = take 1024 r.datagram

abbrev pub with_file : Bytes → Bytes → UdpWorker → UdpWorker
with_file name content w = record w { files = w.files ++ (name, content) ∷ [] }

-- A `write` that takes less than the frame is no error for the code.
unfoldable pub write_file : Bytes → Bytes → Option ℕ → UdpWorker → UdpWorker × Bool
write_file name frame none w = (with_file name [] w, false)
write_file name frame (some n) w = (with_file name (take n frame) w, true)

-- "only save a file if a name came in with the UDP message"; whether the thread goes on.
unfoldable pub save : Round → Bytes → UdpWorker → UdpWorker × Bool
unfolding write_file
save r [] w = (w, true)
save r (c ∷ s) w = if r.opens then write_file (c ∷ s) r.frame r.written w else (w, false)

-- The datagram goes back, and the command runs, if the user gave one. A datagram of 1024 bytes or more
-- leaves no NUL in `udpbuffer`: there the code reads on behind it.
unfoldable pub reply : Bool → Round → UdpWorker → UdpWorker
reply has_command r w = record w {
  replies = w.replies ++ received r ∷ [];
  commands = if has_command then w.commands ++ c_string (received r) ∷ [] else w.commands;
}

unfoldable pub after_save : Bool → Round → UdpWorker × Bool → UdpWorker × Bool
unfolding reply
after_save has_command r (w, false) = (w, false)
after_save has_command r (w, true) = (reply has_command r w, true)

-- The buffer for the frame: whether there is room for it.
unfoldable pub make_room : Round → UdpWorker → UdpWorker × Bool
make_room r w =
    if ltb w.max_frame_size (length r.frame)
    then (record w { max_frame_size = length r.frame + 2 ^ 16 }, r.has_memory)
    else (w, true)

unfoldable pub with_room : Bool → Round → UdpWorker × Bool → UdpWorker × Bool
unfolding save after_save
with_room has_command r (w, false) = (w, false)
with_room has_command r (w, true) = after_save has_command r (save r (c_string (received r)) w)

-- The body of the loop of `worker_thread`, and whether the loop goes on.
unfoldable pub udp_round : Bool → Round → UdpWorker → UdpWorker × Bool
unfolding with_room make_room
udp_round has_command r w = with_room has_command r (make_room r w)

-- The loop over the rounds before `stop`.
unfoldable pub worker_loop : Bool → List Round → UdpWorker → UdpWorker × Bool
unfolding udp_round
worker_loop has_command [] w = (w, true)
worker_loop has_command (r ∷ rs) w =
    let (w', goes_on) = udp_round has_command r w in
    let later = worker_loop has_command rs w' in if goes_on then later else (w', false)

-- `worker_thread`, which wants a port above 0.
unfoldable pub udp_worker_thread : ℤ → Bool → List Round → UdpWorker → UdpWorker × Bool
unfolding worker_loop
udp_worker_thread (negsuc n) has_command rs w = (w, false)
udp_worker_thread (pos zero) has_command rs w = (w, false)
udp_worker_thread (pos (suc n)) has_command rs w = worker_loop has_command rs w

-- Every call of the round succeeds, `write` takes the whole frame, and the datagram leaves a NUL in
-- `udpbuffer`.
pub record Succeeds (r : Round) : Type 0 where
  pub memory : r.has_memory ≡ true
  pub opened : r.opens ≡ true
  pub whole : r.written ≡ some (length r.frame)
  pub short : length r.datagram < 1024

-- The files for the rounds whose datagrams name one.
abbrev pub named_file : Bytes → Bytes → List (Bytes × Bytes)
named_file [] frame = []
named_file (c ∷ s) frame = ((c ∷ s), frame) ∷ []

abbrev pub named_files : List Round → List (Bytes × Bytes)
named_files [] = []
named_files (r ∷ rs) = named_file (c_string r.datagram) r.frame ++ named_files rs

-- What a thread leaves behind: the files and the replies of these rounds, and it goes on.
pub record Answers (rs : List Round) (w : UdpWorker) (result : UdpWorker × Bool) : Type 0 where
  pub goes_on : result.1 ≡ true
  pub answered : result.0.replies ≡ w.replies ++ map (λ r. r.datagram) rs
  pub saved : result.0.files ≡ w.files ++ named_files rs

make_room_whole :
    (r : Round) (w : UdpWorker)
    → r.has_memory ≡ true
    → (w' : UdpWorker) × (make_room r w ≡ (w', true))
      × (w'.files ≡ w.files)
      × (w'.replies ≡ w.replies)
unfolding make_room
make_room_whole r w h = elim (Bool-cases (ltb w.max_frame_size (length r.frame))) [
  | inl e ↦ (record w { max_frame_size = length r.frame + 2 ^ 16 }, rw (e, h) refl, refl, refl)
  | inr e ↦ (w, rw e refl, refl, refl)
]

save_whole :
    (r : Round) (name : Bytes) (w : UdpWorker)
    → Succeeds r
    → (w' : UdpWorker) × (save r name w ≡ (w', true))
      × (w'.files ≡ w.files ++ named_file name r.frame)
      × (w'.replies ≡ w.replies)
unfolding save write_file
save_whole r [] w h = (w, refl, sym (append-nil w.files), refl)
save_whole r (c ∷ s) w h = (
  with_file (c ∷ s) r.frame w,
  rw (h.opened, h.whole, take_all (length r.frame) r.frame (omega arith)) refl,
  refl,
  refl,
)

received-all : (r : Round) → Succeeds r → received r ≡ r.datagram
received-all r h = take_all 1024 r.datagram (omega (arith, h.short))

round_whole :
    (has_command : Bool) (r : Round) (w : UdpWorker)
    → Succeeds r
    → (w' : UdpWorker) × (udp_round has_command r w ≡ (w', true))
      × (w'.files ≡ w.files ++ named_file (c_string r.datagram) r.frame)
      × (w'.replies ≡ w.replies ++ r.datagram ∷ [])
unfolding udp_round with_room after_save reply
round_whole has_command r w h =
    let (w1, room, f1, p1) = make_room_whole r w h.memory in
    let (w2, saved, f2, p2) = save_whole r (c_string r.datagram) w1 h in
    (
      reply has_command r w2,
      ap (with_room has_command r) room
          ∙ ap (λ (s : Bytes). after_save has_command r (save r (c_string s) w1)) (received-all r h)
          ∙ ap (after_save has_command r) saved,
      f2 ∙ ap (λ l. l ++ named_file (c_string r.datagram) r.frame) f1,
      ap (λ (s : Bytes). w2.replies ++ s ∷ []) (received-all r h)
          ∙ ap (λ l. l ++ r.datagram ∷ []) (p2 ∙ p1),
    )

Answers-step :
    (has_command : Bool) (r : Round) (rs : List Round) (w w' : UdpWorker)
    → w'.files ≡ w.files ++ named_file (c_string r.datagram) r.frame
    → w'.replies ≡ w.replies ++ r.datagram ∷ []
    → Answers rs w' (worker_loop has_command rs w')
    → Answers (r ∷ rs) w (worker_loop has_command rs w')
Answers-step has_command r rs w w' f p h = record {
  goes_on = h.goes_on;
  answered =
      h.answered
      ∙ (ap (λ l. l ++ map (λ x. x.datagram) rs) p
          ∙ append_assoc w.replies (r.datagram ∷ []) (map (λ x. x.datagram) rs));
  saved =
      h.saved
      ∙ (ap (λ l. l ++ named_files rs) f
          ∙ append_assoc w.files (named_file (c_string r.datagram) r.frame) (named_files rs));
}

loop_next :
    (has_command : Bool) (r : Round) (rs : List Round) (w w' : UdpWorker)
    → udp_round has_command r w ≡ (w', true)
    → worker_loop has_command (r ∷ rs) w ≡ worker_loop has_command rs w'
unfolding worker_loop
loop_next has_command r rs w w' e =
    ap (λ x. if x.1 then worker_loop has_command rs x.0 else (x.0, false)) e

loop-Answers :
    (has_command : Bool) (rs : List Round) (w : UdpWorker)
    → All (λ r. Succeeds r) rs
    → Answers rs w (worker_loop has_command rs w)
loop-Answers has_command [] w h = nothing
  where
    nothing : Answers [] w (worker_loop has_command [] w)
    nothing =
        unfold worker_loop in
        record {
          goes_on = refl;
          answered = sym (append-nil w.replies);
          saved = sym (append-nil w.files);
        }
loop-Answers has_command (r ∷ rs) w h =
    let (w', e, f, p) = round_whole has_command r w h.0 in
    subst (λ x. Answers (r ∷ rs) w x) (sym (loop_next has_command r rs w w' e))
      (Answers-step has_command r rs w w' f p (loop-Answers has_command rs w' h.1))

-- With a port above 0, and while every call succeeds, each `write` takes the whole frame and each
-- datagram has less than 1024 bytes, `worker_thread` goes on, sends each datagram back as it is, in
-- order, and stores for each datagram that names a file the frame of its round under this name, and no
-- other file.
pub udp_worker_thread-Answers :
    (port : ℕ) (has_command : Bool) (rs : List Round) (w : UdpWorker)
    → All (λ r. Succeeds r) rs
    → Answers rs w (udp_worker_thread (pos (suc port)) has_command rs w)
unfolding udp_worker_thread
udp_worker_thread-Answers port has_command rs w h = loop-Answers has_command rs w h
