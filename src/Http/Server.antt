-- ===== src/Http/Server.antt =====
-- The first part of `server_thread` of plugins/output_http/httpd.c: the sockets that it listens on.
pub mod Listed
pub mod Accept
mod Tests
use robotica_movel.Prelude.{
  ℕ, zero, suc, ◌+◌, ◌-◌, ◌≤◌, ◌<◌, min, Bool, true, false, ◌&&◌, List, [], ◌∷◌, ◌++◌, Option, none,
  some, ◌≡◌, refl, sym, ap, ◌∙◌, arith, ltb, leb, ◌==◌, if◌then◌else◌, Bool-cases, inl, inr, length,
  take, take_all, take-append, replicate, append_assoc, append-nil, length-append, All,
}
use mathlib.Core.Path.{subst}
use robotica_movel.Prelude.Int.{ℤ, pos, negsuc}

-- `MAX_SD_LEN`
abbrev pub max_sd_len : ℕ
max_sd_len = 50

-- An entry of the list of `getaddrinfo`: the descriptor that `socket` gives, if it gives one, and
-- whether `bind` and `listen` succeed.
pub record AddrInfo : Type 0 where
  pub fd : Option ℕ
  pub binds : Bool
  pub listens : Bool

-- The table `sd`, and `i`.
pub record Sockets : Type 0 where
  pub sd : List ℤ
  pub i : ℕ

abbrev pub no_fd : ℤ
no_fd = negsuc 0

-- `sd[i] = x`
unfoldable pub set_sd : ℕ → ℤ → List ℤ → List ℤ
set_sd i x [] = []
set_sd zero x (y ∷ ys) = x ∷ ys
set_sd (suc i) x (y ∷ ys) = y ∷ set_sd i x ys

-- A socket that listens: `i++`, and the test for the end of the table; whether the loop goes on.
unfoldable pub next_place : Sockets → Sockets × Bool
next_place s = if leb max_sd_len (s.i + 1) then (s, false) else (record s { i = s.i + 1 }, true)

unfoldable pub open_socket : AddrInfo → Option ℕ → Sockets → Sockets × Bool
unfolding set_sd next_place
open_socket a none s = (record s { sd = set_sd s.i no_fd s.sd }, true)
open_socket a (some fd) s =
    if a.binds && a.listens
    then next_place (record s { sd = set_sd s.i (pos fd) s.sd })
    else (record s { sd = set_sd s.i no_fd s.sd }, true)

-- "open sockets for server (1 socket / address family)"
unfoldable pub open_sockets : List AddrInfo → Sockets → Sockets
unfolding open_socket
open_sockets [] s = s
open_sockets (a ∷ rest) s =
    let (s', goes_on) = open_socket a a.fd s in
    let later = open_sockets rest s' in if goes_on then later else s'

-- The table before the loop.
abbrev pub init_sockets : Sockets
init_sockets = record { sd = replicate max_sd_len no_fd; i = 0 }

-- `sd_len`, or `exit` where no socket listens.
unfoldable pub listen_on : List AddrInfo → Option Sockets
unfolding open_sockets
listen_on infos = let s = open_sockets infos init_sockets in if ltb s.i 1 then none else some s

-- The descriptors that listen, in order.
abbrev pub listener : AddrInfo → Option ℕ → List ℤ
listener a none = []
listener a (some fd) = if a.binds && a.listens then pos fd ∷ [] else []

abbrev pub listeners : List AddrInfo → List ℤ
listeners [] = []
listeners (a ∷ rest) = listener a a.fd ++ listeners rest
