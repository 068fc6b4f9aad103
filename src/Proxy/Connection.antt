-- ===== src/Proxy/Connection.antt =====
-- The connection of plugins/input_http/mjpg-proxy.c to the other server: `connect_and_stream` and
-- `send_request_and_process_response`, over what the calls of the socket library report.
use robotica_movel.Prelude.{
  Bool, List, [], ◌∷◌, ◌++◌, Option, none, some, if◌then◌else◌, Bytes, codes,
}
use robotica_movel.Proxy.{Extractor, init_extractor, Image, extract_data}

-- `request`, of which `send` writes the NUL as well.
abbrev pub request : Bytes
request = codes "GET /?action=stream HTTP/1.0\r\n\r\n" ++ 0 ∷ []

-- A connection: the bytes of each `recv` that are looked at before `should_stop` is set, and whether
-- it is set when the connection ends.
pub record Connection : Type 0 where
  pub packets : List Bytes
  pub should_stop : Bool

-- The loop over `recv`, which ends with the first call that returns no bytes.
unfoldable pub process_response : Bool → Extractor → List Bytes → Extractor × List Image
process_response char_signed st [] = (st, [])
process_response char_signed st ([] ∷ packets) = (st, [])
process_response char_signed st ((c ∷ s) ∷ packets) =
    let (st', now) = extract_data char_signed st (c ∷ s) in
    let (st'', later) = process_response char_signed st' packets in (st'', now ++ later)

-- `send_request_and_process_response`: the pictures that are handed out.
unfoldable pub send_request_and_process_response : Bool → List Bytes → List Image
unfolding process_response
send_request_and_process_response char_signed packets =
    (process_response char_signed init_extractor packets).1

-- An address of the list that `getaddrinfo` gives: `socket` fails, `connect` fails, or it succeeds.
pub data Address : Type 0 where
  no_socket refused : Address
  accepts : Connection → Address

-- The result of `getaddrinfo`; where it fails, the code reads a list that is not set.
pub data Lookup : Type 0 where
  fails : Lookup
  found : List Address → Lookup

-- The loop over the addresses: the first that accepts.
unfoldable pub probe : List Address → Option Connection
probe [] = none
probe (no_socket ∷ rest) = probe rest
probe (refused ∷ rest) = probe rest
probe (accepts c ∷ rest) = some c

-- How the loop of `connect_and_stream` is left: `should_stop` is set; a list that is not set is
-- read; or it still runs.
pub data Left : Type 0 where
  stopped undefined running : Left

-- Behind the loop over the addresses; `rest` is what the next rounds give.
unfoldable pub on_connection : Bool → Option Connection → List Image × Left → List Image × Left
unfolding send_request_and_process_response
on_connection char_signed none rest = rest
on_connection char_signed (some c) (later, left) =
    let now = send_request_and_process_response char_signed c.packets in
    if c.should_stop then (now, stopped) else (now ++ later, left)

-- `connect_and_stream`: the pictures that are handed out in the rounds.
unfoldable pub connect_and_stream : Bool → List Lookup → List Image × Left
unfolding on_connection
connect_and_stream char_signed [] = ([], running)
connect_and_stream char_signed (fails ∷ rounds) = ([], undefined)
connect_and_stream char_signed (found addresses ∷ rounds) =
    on_connection char_signed (probe addresses) (connect_and_stream char_signed rounds)
