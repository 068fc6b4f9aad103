-- ===== src/Http/Server/Accept.antt =====
-- The accept loop of `server_thread` of plugins/output_http/httpd.c: the objects `pcfd` that it hands to
-- the threads of the clients.
use robotica_movel.Prelude.Int.{ℤ}
use robotica_movel.Prelude.{ℕ, ◌+◌, Bool, List, [], ◌∷◌, ◌++◌, if◌then◌else◌}

-- A socket that `select` reports: what `accept` returns, -1 included, which no line tests, and whether
-- `pthread_create` succeeds.
pub record Accepted : Type 0 where
  pub fd : ℤ
  pub created : Bool

-- A thread that is started: its object, numbered in the order of the calls of `malloc`, and the
-- descriptor in it when it is started.
pub record Started : Type 0 where
  pub cfd : ℕ
  pub fd : ℤ

-- The loop over the sockets of one round, which all get the one object of the round.
unfoldable pub start_threads : ℕ → List Accepted → List Started
start_threads pcfd [] = []
start_threads pcfd (a ∷ rest) =
    let later = start_threads pcfd rest in
    if a.created then record { cfd = pcfd; fd = a.fd } ∷ later else later

-- "create a child for every client that connects", over the rounds before `stop`.
unfoldable pub accept_clients : ℕ → List (List Accepted) → List Started
unfolding start_threads
accept_clients next [] = []
accept_clients next (ready ∷ rounds) = start_threads next ready ++ accept_clients (next + 1) rounds
