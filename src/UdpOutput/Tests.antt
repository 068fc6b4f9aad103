-- ===== src/UdpOutput/Tests.antt =====
-- Runs of the UDP thread, and its theorem at a concrete input.
use robotica_movel.Prelude.{some, arith, true, false, [], ◌∷◌, ◌++◌, ◌≡◌, refl, codes}
use robotica_movel.Prelude.Int.{pos}
use robotica_movel.CString.{c_string}
use robotica_movel.UdpOutput.{
  Round, UdpWorker, udp_worker_thread, Succeeds, Answers, udp_worker_thread-Answers,
}

abbrev save_one : Round
save_one = record {
  datagram = codes "/tmp/a.jpg" ++ 0 ∷ [];
  frame = codes "jpeg";
  has_memory = true;
  opens = true;
  written = some 4;
}

abbrev no_name : Round
no_name = record save_one { datagram = [] }

-- The name of a folder.
abbrev bad_name : Round
bad_name = record save_one { datagram = codes "/"; opens = false }

abbrev fresh : UdpWorker
fresh = record { max_frame_size = 0; files = []; replies = []; commands = [] }

save_one-Succeeds : Succeeds save_one
save_one-Succeeds = record { memory = refl; opened = refl; whole = refl; short = omega arith }

no_name-Succeeds : Succeeds no_name
no_name-Succeeds = record { memory = refl; opened = refl; whole = refl; short = omega arith }

saved_file :
    (udp_worker_thread (pos 2001) false (save_one ∷ no_name ∷ []) fresh).0.files
    ≡ (codes "/tmp/a.jpg", codes "jpeg") ∷ []
unfolding udp_worker_thread c_string
saved_file = refl

-- One datagram with a name that does not open ends the thread: the next one gets no reply.
ended_by_name : (udp_worker_thread (pos 2001) false (bad_name ∷ save_one ∷ []) fresh).0.replies ≡ []
unfolding udp_worker_thread c_string
ended_by_name = refl

udp_worker_thread-Answers_example :
    Answers
      (save_one ∷ no_name ∷ [])
      fresh
      (udp_worker_thread (pos 2001) true (save_one ∷ no_name ∷ []) fresh)
udp_worker_thread-Answers_example =
    udp_worker_thread-Answers 2000 true (save_one ∷ no_name ∷ []) fresh
      (save_one-Succeeds, (no_name-Succeeds, tt))
