-- ===== src/Http/Json/Grammar.antt =====
-- A reader of JSON texts, one byte after the other, against which the JSON texts of
-- plugins/output_http/httpd.c are held. It knows objects, arrays, texts without escapes, and the
-- numbers that are not negative and have no fraction.
use robotica_movel.Prelude.{
  ℕ, Bool, true, false, ◌&&◌, ◌||◌, not, List, [], ◌∷◌, ◌++◌, Option, none, some, ◌≡◌, refl, ap,
  ◌∙◌, arith, leb, ◌==◌, if◌then◌else◌, Bytes, concat, All,
}

pub data Container : Type 0 where
  array object : Container

-- What comes next: a value; a value or the end of an array; a key; a key or the end of an object; a
-- colon; the rest of a text, or of a key; the rest of a number; what follows a value.
pub data Mode : Type 0 where
  value first_value key first_key colon text key_text number after : Mode

-- The mode, and the containers that are open.
pub record Reader : Type 0 where
  pub mode : Mode
  pub open_ones : List Container

abbrev pub at_mode : Mode → List Container → Reader
at_mode m k = record { mode = m; open_ones = k }

unfoldable pub is_blank : ℕ → Bool
is_blank c = (c == 32 || c == 10) || (c == 13 || c == 9)

-- A byte of a text without escapes.
unfoldable pub is_plain : ℕ → Bool
is_plain c = leb 32 c && not (c == b'"' || c == b'\\')

unfoldable pub value_byte : List Container → ℕ → Option Reader
unfolding is_blank
value_byte k c =
    if is_blank c
    then some (at_mode value k)
    else if c == b'"'
    then some (at_mode text k)
    else if c == b'{'
    then some (at_mode first_key (object ∷ k))
    else if c == b'['
    then some (at_mode first_value (array ∷ k))
    else if c == b'0'
    then some (at_mode after k)
    else if leb b'1' c && leb c b'9'
    then some (at_mode number k)
    else none

unfoldable pub key_byte : Mode → List Container → ℕ → Option Reader
unfolding is_blank
key_byte m k c =
    if is_blank c then some (at_mode m k) else if c == b'"' then some (at_mode key_text k) else none

-- The byte behind a value in an array or an object.
unfoldable pub after_byte : List Container → ℕ → Option Reader
after_byte [] c = none
after_byte (array ∷ k) c =
    if c == b','
    then some (at_mode value (array ∷ k))
    else if c == b']'
    then some (at_mode after k)
    else none
after_byte (object ∷ k) c =
    if c == b','
    then some (at_mode key (object ∷ k))
    else if c == b'}'
    then some (at_mode after k)
    else none

unfoldable pub text_byte : Mode → Mode → List Container → ℕ → Option Reader
unfolding is_plain
text_byte inside behind k c =
    if c == b'"'
    then some (at_mode behind k)
    else if is_plain c
    then some (at_mode inside k)
    else none

abbrev pub close : Container → List Container → Option Reader
close array (array ∷ k) = some (at_mode after k)
close object (object ∷ k) = some (at_mode after k)
close _ _ = none

unfoldable pub read_byte : Mode → List Container → ℕ → Option Reader
unfolding value_byte key_byte after_byte text_byte
read_byte value k c = value_byte k c
read_byte first_value k c =
    if is_blank c
    then some (at_mode first_value k)
    else if c == b']'
    then close array k
    else value_byte k c
read_byte key k c = key_byte key k c
read_byte first_key k c = if c == b'}' then close object k else key_byte first_key k c
read_byte colon k c =
    if is_blank c
    then some (at_mode colon k)
    else if c == b':'
    then some (at_mode value k)
    else none
read_byte text k c = text_byte text after k c
read_byte key_text k c = text_byte key_text colon k c
read_byte number k c =
    if leb b'0' c && leb c b'9'
    then some (at_mode number k)
    else if is_blank c
    then some (at_mode after k)
    else after_byte k c
read_byte after k c = if is_blank c then some (at_mode after k) else after_byte k c

unfoldable pub read_json : Reader → Bytes → Option Reader
read_json r [] = some r
read_json r (c ∷ s) = elim (read_byte r.mode r.open_ones c) [
  | none ↦ none
  | some r' ↦ read_json r' s
]

-- From a state to another.
abbrev pub Reads : Reader → Bytes → Reader → Type 0
Reads r s r' = read_json r s ≡ some r'

-- One JSON value, and blanks around it.
abbrev pub IsJson : Bytes → Type 0
IsJson s = Reads (at_mode value []) s (at_mode after [])

read_json-append :
    (r r' : Reader) (s t : Bytes) → Reads r s r' → read_json r (s ++ t) ≡ read_json r' t
unfolding read_json
read_json-append r r' [] t h = ap (λ x. read_json x t) (some-injective h)
  where
    some-injective : {a b : Reader} → some a ≡ some b → a ≡ b
    some-injective e = cc
read_json-append r r' (c ∷ s) t h =
    by_byte (read_byte r.mode r.open_ones c) (λ x e. read_json-append x r' s t e) h
  where
    by_byte :
        (o : Option Reader)
        → ((x : Reader) → Reads x s r' → read_json x (s ++ t) ≡ read_json r' t)
        → (elim o [ none ↦ none | some x ↦ read_json x s ]) ≡ some r'
        → (elim o [ none ↦ none | some x ↦ read_json x (s ++ t) ]) ≡ read_json r' t
    by_byte none later e = absurd cc
    by_byte (some x) later e = later x e

pub Reads-append :
    (r r' r'' : Reader) (s t : Bytes) → Reads r s r' → Reads r' t r'' → Reads r (s ++ t) r''
Reads-append r r' r'' s t h k = read_json-append r r' s t h ∙ k

pub Reads-none : (r : Reader) → Reads r [] r
unfolding read_json
Reads-none r = refl

-- Pieces that all lead back to the state.
pub Reads-concat :
    (r : Reader) (pieces : List Bytes) → All (λ s. Reads r s r) pieces → Reads r (concat pieces) r
Reads-concat r [] h = Reads-none r
Reads-concat r (s ∷ pieces) h = Reads-append r r r s (concat pieces) h.0 (Reads-concat r pieces h.1)

-- A text without quotes, backslashes and control characters.
abbrev pub IsPlainText : Bytes → Type 0
IsPlainText s = All (λ c. is_plain c ≡ true) s

plain_text_byte :
    (k : List Container) (c : ℕ) → is_plain c ≡ true → read_byte text k c ≡ some (at_mode text k)
unfolding read_byte text_byte is_plain
plain_text_byte k c h = ground arith

pub read_json-byte :
    (m : Mode) (k : List Container) (c : ℕ) (s : Bytes) (r : Reader)
    → read_byte m k c ≡ some r
    → read_json (at_mode m k) (c ∷ s) ≡ read_json r s
unfolding read_json
read_json-byte m k c s r h = ap (λ o. elim o [ none ↦ none | some x ↦ read_json x s ]) h

pub Reads-text :
    (k : List Container) (s : Bytes) → IsPlainText s → Reads (at_mode text k) s (at_mode text k)
Reads-text k [] h = Reads-none (at_mode text k)
Reads-text k (c ∷ s) h =
    read_json-byte text k c s (at_mode text k) (plain_text_byte k c h.0) ∙ Reads-text k s h.1

plain_key_byte :
    (k : List Container) (c : ℕ)
    → is_plain c ≡ true
    → read_byte key_text k c ≡ some (at_mode key_text k)
unfolding read_byte text_byte is_plain
plain_key_byte k c h = ground arith

pub Reads-key_text :
    (k : List Container) (s : Bytes)
    → IsPlainText s
    → Reads (at_mode key_text k) s (at_mode key_text k)
Reads-key_text k [] h = Reads-none (at_mode key_text k)
Reads-key_text k (c ∷ s) h =
    read_json-byte key_text k c s (at_mode key_text k) (plain_key_byte k c h.0)
    ∙ Reads-key_text k s h.1

-- The state before a member of an object, and behind the members, of which there may be none.
abbrev pub member : Bool → List Container → Reader
member true k = at_mode first_key (object ∷ k)
member false k = at_mode key (object ∷ k)

abbrev pub behind_members : Bool → List Container → Reader
behind_members true k = at_mode first_key (object ∷ k)
behind_members false k = at_mode after (object ∷ k)

-- The members of an object, or none.
abbrev pub AreMembers : List Container → Bytes → Type 0
AreMembers k s = (none_yet : Bool) × Reads (member true k) s (behind_members none_yet k)
