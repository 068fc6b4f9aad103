-- ===== src/Main.antt =====
-- mjpg_streamer.c: how the main program splits the parameters of a plugin.
pub mod Startup
mod Tests
use robotica_movel.Prelude.{
  ℕ, zero, suc, ◌+◌, ◌-◌, ◌≤◌, ◌<◌, Bool, true, false, not, ◌&&◌, List, [], ◌∷◌, ◌++◌, Option, none,
  some, ◌≡◌, refl, sym, ap, ◌∙◌, arith, ltb, leb, ◌==◌, Bool-cases, inl, inr, if◌then◌else◌, Bytes,
  codes, length, all, All,
}
use robotica_movel.CString.{strchr, is_some}

-- `MAX_PLUGIN_ARGUMENTS`
abbrev pub max_plugin_arguments : ℕ
max_plugin_arguments = 32

-- A token that ends here, unless it is empty.
unfoldable ended : Bytes → List Bytes → List Bytes
ended [] ts = ts
ended (c ∷ cs) ts = (c ∷ cs) ∷ ts

-- The tokens that `strtok_r` gives for the separator " ", behind the bytes `cur` of the first one.
unfoldable tokens_from : Bytes → Bytes → List Bytes
unfolding ended
tokens_from cur [] = ended cur []
tokens_from cur (c ∷ cs) =
    let apart = tokens_from [] cs in
    let longer = tokens_from (cur ++ c ∷ []) cs in if c == b' ' then ended cur apart else longer

unfoldable pub tokens : Bytes → List Bytes
unfolding tokens_from
tokens s = tokens_from [] s

abbrev stored : Bytes → Option (List Bytes) → Option (List Bytes)
stored t none = none
stored t (some ts) = some (t ∷ ts)

-- The `while` loop, with `count` entries of `argv` in use; `none` is the return value 0.
unfoldable store_rest : ℕ → List Bytes → Option (List Bytes)
store_rest count [] = some []
store_rest count (t ∷ ts) =
    let rest = store_rest (count + 1) ts in
    if leb max_plugin_arguments (count + 1) then none else stored t rest

unfoldable store_tokens : List Bytes → Option (List Bytes)
unfolding store_rest
store_tokens [] = some []
store_tokens (t ∷ ts) = stored t (store_rest 2 ts)

-- `split_parameters`: the entries of `argv` behind `argv[0]`; `argc` is one more than their number.
unfoldable pub split_parameters : Option Bytes → Option (List Bytes)
unfolding store_tokens tokens
split_parameters none = some []
split_parameters (some s) = if is_some (strchr s b' ') then store_tokens (tokens s) else some []

-- A word of at least one byte, without a blank.
abbrev pub IsWord : Bytes → Type 0
IsWord t = (0 < length t) × (all (λ c. not (c == b' ')) t ≡ true)

ended-IsWord :
    (cur : Bytes) (ts : List Bytes)
    → all (λ c. not (c == b' ')) cur ≡ true
    → All IsWord ts
    → All IsWord (ended cur ts)
unfolding ended
ended-IsWord [] ts h k = k
ended-IsWord (c ∷ cs) ts h k = ((omega arith, h), k)

all-snoc :
    (cur : Bytes) (c : ℕ)
    → all (λ c. not (c == b' ')) cur ≡ true
    → (c == b' ') ≡ false
    → all (λ c. not (c == b' ')) (cur ++ c ∷ []) ≡ true
all-snoc [] c h e = ground arith
all-snoc (x ∷ cur) c h e = ground (arith, all-snoc cur c (ground arith) e)

tokens_from-IsWord :
    (cur s : Bytes) → all (λ c. not (c == b' ')) cur ≡ true → All IsWord (tokens_from cur s)
unfolding tokens_from
tokens_from-IsWord cur [] h = ended-IsWord cur [] h tt
tokens_from-IsWord cur (c ∷ cs) h = elim (Bool-cases (c == b' ')) [
  | inl e ↦ rw e (ended-IsWord cur _ h (tokens_from-IsWord [] cs refl))
  | inr e ↦ rw e (tokens_from-IsWord (cur ++ c ∷ []) cs (all-snoc cur c h e))
]

store_rest_all :
    (ts : List Bytes) (count : ℕ)
    → count + length ts < max_plugin_arguments
    → store_rest count ts ≡ some ts
unfolding store_rest
store_rest_all [] count h = refl
store_rest_all (t ∷ ts) count h = rw (store_rest_all ts (count + 1) (omega arith), room) refl
  where
    room : leb max_plugin_arguments (count + 1) ≡ false
    room = ground arith

store_rest-none :
    (ts : List Bytes) (count : ℕ)
    → count < max_plugin_arguments
    → max_plugin_arguments ≤ count + length ts
    → store_rest count ts ≡ none
unfolding store_rest
store_rest-none [] count h k = absurd (omega arith)
store_rest-none (t ∷ ts) count h k = elim (Bool-cases (leb max_plugin_arguments (count + 1))) [
  | inl e ↦ rw e refl
  | inr e ↦ rw (e, store_rest-none ts (count + 1) (ground arith) (omega arith)) refl
]

-- The words, if they and `argv[0]` are fewer than MAX_PLUGIN_ARGUMENTS.
abbrev pub words_or_none : List Bytes → Option (List Bytes)
words_or_none words = if ltb (length words + 1) max_plugin_arguments then some words else none

store_tokens_lem : (ts : List Bytes) → store_tokens ts ≡ words_or_none ts
unfolding store_tokens
store_tokens_lem [] = refl
store_tokens_lem (t ∷ ts) = elim (Bool-cases (ltb (length (t ∷ ts) + 1) max_plugin_arguments)) [
  | inl e ↦ ap (stored t) (store_rest_all ts 2 (ground arith)) ∙ rw e refl
  | inr e ↦ ap (stored t) (store_rest-none ts 2 (omega arith) (ground arith)) ∙ rw e refl
]

if_true : {A : Type 0} (b : Bool) (x y : A) → b ≡ true → (if b then x else y) ≡ x
if_true b x y e = rw e refl

-- For a text with a blank in it, `split_parameters` gives its words, each of at least one byte and
-- without a blank, if they and `argv[0]` are fewer than MAX_PLUGIN_ARGUMENTS; otherwise it refuses.
pub split_parameters_lem :
    (s : Bytes)
    → is_some (strchr s b' ') ≡ true
    → All IsWord (tokens s) × (split_parameters (some s) ≡ words_or_none (tokens s))
unfolding split_parameters
split_parameters_lem s h = (
  tokens_from-IsWord [] s refl,
  if_true (is_some (strchr s b' ')) _ _ h ∙ store_tokens_lem (tokens s),
)
