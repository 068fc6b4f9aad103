-- ===== src/Http/Json/Clients.antt =====
-- The JSON text of the clients of plugins/output_http/httpd.c is JSON.
use robotica_movel.Prelude.{
  ℕ, zero, suc, ◌+◌, ◌/◌, ◌%◌, ◌<◌, Bool, true, false, List, [], ◌∷◌, some, ◌≡◌, refl, ◌∙◌, arith,
  ltb, Bool-cases, inl, inr, codes, All,
}
use robotica_movel.CString.Number.{decimal_fuel, decimal}
use robotica_movel.Http.ClientTable.{ClientInfo}
use robotica_movel.Http.Json.{client_entry, client_entries, clients_body}
use robotica_movel.Http.Json.Grammar.{
  Container, array, object, Mode, value, after, number, Reader, at_mode, read_json, read_byte,
  Reads, IsJson, Reads-append, Reads-none, IsPlainText, Reads-text, read_json-byte,
}
use robotica_movel.Http.Json.WellFormed.{element, in_text, behind_elements}

number_starts :
    (n : ℕ) (k : List Container)
    → 0 < n
    → n < 10
    → read_byte value k (b'0' + n) ≡ some (at_mode number k)
unfolding read_byte
number_starts n k h l = ground arith

number_goes_on :
    (n : ℕ) (k : List Container) → n < 10 → read_byte number k (b'0' + n) ≡ some (at_mode number k)
unfolding read_byte
number_goes_on n k l = ground arith

one_byte :
    (m m' : Mode) (k : List Container) (c : ℕ)
    → read_byte m k c ≡ some (at_mode m' k)
    → Reads (at_mode m k) (c ∷ []) (at_mode m' k)
one_byte m m' k c h = read_json-byte m k c [] (at_mode m' k) h ∙ Reads-none (at_mode m' k)

-- A number above 0 is read as a number, its first digit not being 0.
digits-Reads :
    (f n : ℕ) (k : List Container)
    → 0 < n
    → n < f
    → Reads (at_mode value k) (decimal_fuel f n) (at_mode number k)
unfolding decimal_fuel
digits-Reads zero n k h l = absurd (omega arith)
digits-Reads (suc f) n k h l = elim (Bool-cases (ltb n 10)) [
  | inl e ↦ rw e (one_byte value number k (b'0' + n) (number_starts n k h (ground arith)))
  | inr e ↦ rw e (
      Reads-append (at_mode value k) (at_mode number k) (at_mode number k) (decimal_fuel f (n / 10))
        ((b'0' + n % 10) ∷ []) (digits-Reads f (n / 10) k (ground arith) (ground arith))
        (one_byte number number k (b'0' + n % 10) (number_goes_on (n % 10) k (omega arith))))
]

-- The mode behind the digits of a number.
abbrev behind_number : ℕ → List Container → Reader
behind_number zero k = at_mode after k
behind_number (suc n) k = at_mode number k

decimal-Reads :
    (n : ℕ) (k : List Container) → Reads (at_mode value k) (decimal n) (behind_number n k)
unfolding decimal
decimal-Reads zero k = zero-Reads k
  where
    zero-Reads : (k : List Container) → Reads (at_mode value k) (decimal_fuel 1 0) (at_mode after k)
    zero-Reads k = unfold read_json read_byte decimal_fuel in refl
decimal-Reads (suc n) k = digits-Reads (suc (suc n)) (suc n) k (omega arith) (omega arith)

address_open :
    (first : Bool) (k : List Container)
    → Reads (element first k) (codes "{\n\"address\": \"") (in_text (array ∷ k))
unfolding read_json read_byte
address_open true k = refl
address_open false k = refl

timestamp_key :
    (k : List Container)
    → Reads (in_text k) (codes "\",\n\"timestamp\": ") (at_mode value (object ∷ k))
unfolding read_json read_byte
timestamp_key k = refl

timestamp_close :
    (n : ℕ) (k : List Container)
    → Reads (behind_number n (object ∷ k)) (codes "\n}\n") (at_mode after k)
unfolding read_json read_byte
timestamp_close zero k = refl
timestamp_close (suc n) k = refl

client_entry-Reads :
    (first : Bool) (k : List Container) (c : ClientInfo)
    → IsPlainText c.address
    → Reads (element first k) (client_entry c) (at_mode after (array ∷ k))
unfolding client_entry
client_entry-Reads first k c h =
    Reads-append (element first k) (in_text (array ∷ k)) (at_mode after (array ∷ k))
      (codes "{\n\"address\": \"") _ (address_open first k)
      (Reads-append (in_text (array ∷ k)) (in_text (array ∷ k)) (at_mode after (array ∷ k))
        c.address _ (Reads-text (object ∷ array ∷ k) c.address h)
        (Reads-append (in_text (array ∷ k)) (at_mode value (object ∷ array ∷ k))
          (at_mode after (array ∷ k)) (codes "\",\n\"timestamp\": ") _ (timestamp_key (array ∷ k))
          (Reads-append (at_mode value (object ∷ array ∷ k))
            (behind_number c.tv_sec (object ∷ array ∷ k)) (at_mode after (array ∷ k))
            (decimal c.tv_sec) _ (decimal-Reads c.tv_sec (object ∷ array ∷ k))
            (timestamp_close c.tv_sec (array ∷ k)))))

pub next_element :
    (k : List Container) → Reads (at_mode after (array ∷ k)) (codes ",\n") (element false k)
unfolding read_json read_byte
next_element k = refl

more_clients-Reads :
    (first : Bool) (k : List Container) (c : ClientInfo) (cs : List ClientInfo)
    → All (λ d. IsPlainText d.address) (c ∷ cs)
    → Reads (element first k) (client_entries (c ∷ cs)) (at_mode after (array ∷ k))
unfolding client_entries
more_clients-Reads first k c [] h = client_entry-Reads first k c h.0
more_clients-Reads first k c (d ∷ cs) h =
    Reads-append (element first k) (at_mode after (array ∷ k)) (at_mode after (array ∷ k))
      (client_entry c) _ (client_entry-Reads first k c h.0)
      (Reads-append (at_mode after (array ∷ k)) (element false k) (at_mode after (array ∷ k))
        (codes ",\n") _ (next_element k) (more_clients-Reads false k d cs h.1))

clients-Reads :
    (k : List Container) (cs : List ClientInfo)
    → All (λ d. IsPlainText d.address) cs
    → Reads (element true k) (client_entries cs) (behind_elements cs k)
unfolding client_entries
clients-Reads k [] h = Reads-none (element true k)
clients-Reads k (c ∷ cs) h = more_clients-Reads true k c cs h

clients_open : Reads (at_mode value []) (codes "{\n\"clients\": [\n") (element true (object ∷ []))
unfolding read_json read_byte
clients_open = refl

clients_close :
    (cs : List ClientInfo)
    → Reads (behind_elements cs (object ∷ [])) (codes "]\n}\n") (at_mode after [])
unfolding read_json read_byte
clients_close [] = refl
clients_close (c ∷ cs) = refl

-- When the addresses hold no quote, no backslash and no control character, what `send_clients_JSON`
-- writes behind the header is one JSON value, for any number of clients.
pub clients_body-IsJson :
    (clients : List ClientInfo)
    → All (λ d. IsPlainText d.address) clients
    → IsJson (clients_body clients)
unfolding clients_body
clients_body-IsJson clients h =
    Reads-append (at_mode value []) (element true (object ∷ [])) (at_mode after [])
      (codes "{\n\"clients\": [\n") _ clients_open
      (Reads-append (element true (object ∷ [])) (behind_elements clients (object ∷ []))
        (at_mode after []) (client_entries clients) _ (clients-Reads (object ∷ []) clients h)
        (clients_close clients))
