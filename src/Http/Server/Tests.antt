-- ===== src/Http/Server/Tests.antt =====
-- Runs of the first part of `server_thread`, and its theorem at a concrete input.
use robotica_movel.Prelude.{true, false, [], ◌∷◌, none, some, ◌≡◌, refl}
use robotica_movel.Prelude.Int.{pos, negsuc}
use robotica_movel.Http.Server.{AddrInfo, init_sockets, open_sockets, listen_on, listeners}
use robotica_movel.Http.Server.Accept.{Accepted, accept_clients}
use robotica_movel.Http.Server.Listed.{AreListed, open_sockets-AreListed}

abbrev ipv4 : AddrInfo
ipv4 = record { fd = some 4; binds = true; listens = true }

abbrev taken : AddrInfo
taken = record { fd = some 5; binds = false; listens = true }

abbrev unknown : AddrInfo
unknown = record { fd = none; binds = false; listens = false }

nobody_listens : listen_on (unknown ∷ taken ∷ []) ≡ none
unfolding listen_on
nobody_listens = refl

open_sockets-AreListed_example :
    AreListed
      (listeners (unknown ∷ taken ∷ ipv4 ∷ []))
      (open_sockets (unknown ∷ taken ∷ ipv4 ∷ []) init_sockets)
open_sockets-AreListed_example = open_sockets-AreListed (unknown ∷ taken ∷ ipv4 ∷ [])

abbrev first_client : Accepted
first_client = record { fd = pos 7; created = true }

abbrev second_client : Accepted
second_client = record { fd = pos 8; created = true }

-- Two sockets that are ready in one round: both threads get the same object.
one_object :
    accept_clients 0 ((first_client ∷ second_client ∷ []) ∷ [])
    ≡ record { cfd = 0; fd = pos 7 } ∷ record { cfd = 0; fd = pos 8 } ∷ []
unfolding accept_clients
one_object = refl

-- A call of `accept` that fails: a thread gets the descriptor -1.
failed_accept :
    accept_clients 0 ((record { fd = negsuc 0; created = true } ∷ []) ∷ [])
    ≡ record { cfd = 0; fd = negsuc 0 } ∷ []
unfolding accept_clients
failed_accept = refl
