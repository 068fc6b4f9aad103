-- ===== src/Http/Command.antt =====
-- `command` of plugins/output_http/httpd.c: the control commands of a client.
use robotica_movel.Prelude.{
  ℕ, zero, suc, ◌<◌, ◌^◌, Bool, true, false, ◌||◌, ◌++◌, Option, none, some, ◌≡◌, refl, sym, ap,
  arith, ltb, leb, ◌==◌, Bool-cases, inl, inr, if◌then◌else◌, Bytes, codes, length, drop, all,
}
use robotica_movel.Prelude.Int.{ℤ, pos, negsuc, pos_part, neg_part, ltb_ℤ}
use robotica_movel.CString.{strstr, span}
use robotica_movel.CString.Laws.{all-span, all-elem, is_alphanumeric}
use robotica_movel.CString.Number.{strtol_int, clamp_int, print_int, read_signed, skip_space}
use robotica_movel.Http.Stream.{std_header}

-- A call `cmd(plugin_no, command_id, group, ivalue, value)` of an input or of an output plugin.
pub record Call : Type 0 where
  pub plugin_no : ℤ
  pub command_id : ℤ
  pub group : ℤ
  pub ivalue : ℤ
  pub text : Option Bytes

pub data Dispatch : Type 0 where
  to_input to_output : Call → Dispatch
  -- Dest_Program, an unknown destination, or a plugin number that is not below the count
  nobody : Dispatch

pub data CommandResult : Type 0 where
  -- `send_error`
  refused : ℕ → Bytes → CommandResult
  -- the call, and the command's name for the response
  performed : Dispatch → Bytes → CommandResult

abbrev number_chars : Bytes
number_chars = codes "-1234567890"

abbrev pub id_chars : Bytes
id_chars = codes "abcdefghijklmnopqrstuvwxyzABCDEFGHIJKLMNOPQRSTUVWXYZ_1234567890"

-- The text behind the first occurrence of a name.
abbrev behind : Bytes → Option Bytes → Option Bytes
behind name none = none
behind name (some found) = some (drop (length name) found)

-- The number at the front of a text.
unfoldable number_at : Bytes → ℤ
number_at s = strtol_int (span s number_chars)

-- An optional number of the parameter, with its default.
unfoldable pub number_or : ℤ → Option Bytes → ℤ
unfolding number_at
number_or default none = default
number_or default (some s) = number_at s

abbrev argument : Bytes → Bytes → Option Bytes
argument parameter name = behind name (strstr parameter name)

-- `switch(dest)`
unfoldable dispatch : ℕ → ℕ → ℤ → Call → Dispatch
dispatch incnt outcnt (pos zero) call =
    if ltb_ℤ call.plugin_no (pos incnt) then to_input call else nobody
dispatch incnt outcnt (pos (suc zero)) call =
    if ltb_ℤ call.plugin_no (pos outcnt) then to_output call else nobody
dispatch incnt outcnt _ call = nobody

-- What the parameter asks for, once `id=` is found.
unfoldable requested : Bytes → Bytes → Call
unfolding number_at number_or
requested parameter name = record {
  plugin_no = number_or (pos 0) (argument parameter (codes "plugin="));
  command_id = number_at name;
  group = number_or (pos 0) (argument parameter (codes "group="));
  ivalue = number_or (pos 0) (argument parameter (codes "value="));
  text = argument parameter (codes "plugin=");
}

unfoldable with_id : ℕ → ℕ → Bytes → Option Bytes → CommandResult
unfolding requested dispatch number_or
with_id incnt outcnt parameter none = refused 400 (
    codes "no GET variable \"id=...\" found, it is required to specify which command id to execute")
with_id incnt outcnt parameter (some s) =
    let name = span s id_chars in
    performed
      (dispatch incnt outcnt (number_or (pos 0) (argument parameter (codes "dest=")))
        (requested parameter name))
      name

abbrev pub bad_parameter : CommandResult
bad_parameter = refused 400 (codes "Parameter-string of command does not look valid.")

-- `command`, for `incnt` input and `outcnt` output plugins.
unfoldable pub command : ℕ → ℕ → Option Bytes → CommandResult
unfolding with_id
command incnt outcnt none = bad_parameter
command incnt outcnt (some parameter) =
    if leb 255 (length parameter) || length parameter == 0
    then bad_parameter
    else with_id incnt outcnt parameter (argument parameter (codes "id="))

-- The response; `res` is the result of the call, or 0.
unfoldable pub command_response : Bytes → ℤ → Bytes
command_response name res =
    codes "HTTP/1.0 200 OK\r\nContent-type: text/plain\r\n"
    ++ (std_header ++ (codes "\r\n" ++ (name ++ (codes ": " ++ print_int res))))

-- A letter, a digit or `_`.
abbrev pub is_word : ℕ → Bool
is_word c = is_alphanumeric c || c == 95

-- The number behind a name of the parameter, 0 without it.
abbrev pub asked_number : Bytes → Bytes → ℤ
asked_number parameter name = number_or (pos 0) (argument parameter name)

-- An `int`.
abbrev pub IsInt : ℤ → Type 0
IsInt (pos n) = n < 2 ^ 31
IsInt (negsuc n) = n < 2 ^ 31

-- A plugin number below the count.
abbrev pub IsBelow : ℤ → ℕ → Type 0
IsBelow (pos n) count = n < count
IsBelow (negsuc n) count = Unit

abbrev pub CallFits : ℕ → ℤ → Call → Type 0
CallFits count plugin c =
    (c.plugin_no ≡ plugin)
    × IsBelow plugin count
    × IsInt c.command_id
    × IsInt c.group
    × IsInt c.ivalue

-- For the destination and the plugin number that the parameter has.
abbrev pub DispatchFits : ℕ → ℕ → ℤ → ℤ → Dispatch → Type 0
DispatchFits incnt outcnt dest plugin (to_input c) = (dest ≡ pos 0) × CallFits incnt plugin c
DispatchFits incnt outcnt dest plugin (to_output c) = (dest ≡ pos 1) × CallFits outcnt plugin c
DispatchFits incnt outcnt dest plugin nobody =
    (¬ ((dest ≡ pos 0) × IsBelow plugin incnt)) × (¬ ((dest ≡ pos 1) × IsBelow plugin outcnt))

abbrev pub ResultFits : ℕ → ℕ → Bytes → CommandResult → Type 0
ResultFits incnt outcnt parameter (refused code message) = code ≡ 400
ResultFits incnt outcnt parameter (performed d name) =
    DispatchFits incnt outcnt (asked_number parameter (codes "dest="))
      (asked_number parameter (codes "plugin=")) d
    × (all is_word name ≡ true)

clamp_int-IsInt : (z : ℤ) → IsInt (clamp_int z)
unfolding clamp_int
clamp_int-IsInt (pos n) = elim (Bool-cases (ltb n (2 ^ 31))) [
  | inl e ↦ rw e (ground arith)
  | inr e ↦ rw e (omega arith)
]
clamp_int-IsInt (negsuc n) = elim (Bool-cases (ltb n (2 ^ 31))) [
  | inl e ↦ rw e (ground arith)
  | inr e ↦ rw e (omega arith)
]

number_at-IsInt : (s : Bytes) → IsInt (number_at s)
unfolding number_at strtol_int
number_at-IsInt s = clamp_int-IsInt (read_signed (skip_space (span s number_chars)))

number_or-IsInt : (o : Option Bytes) → IsInt (number_or (pos 0) o)
unfolding number_or
number_or-IsInt none = omega arith
number_or-IsInt (some s) = number_at-IsInt s

below : (z : ℤ) (count : ℕ) → ltb_ℤ z (pos count) ≡ true → IsBelow z count
below (pos n) count h = ground arith
below (negsuc n) count h = tt

not-IsBelow : (z : ℤ) (count : ℕ) → ltb_ℤ z (pos count) ≡ false → ¬ IsBelow z count
not-IsBelow (pos n) count h = λ lt. ground arith
not-IsBelow (negsuc n) count h = λ u. ground arith

zero_not_one : (pos 0 ≡ pos 1) → ⊥
zero_not_one q = omega (arith, ap pos_part q)

dispatch-Fits :
    (incnt outcnt : ℕ) (dest : ℤ) (c : Call)
    → IsInt c.command_id × IsInt c.group × IsInt c.ivalue
    → DispatchFits incnt outcnt dest c.plugin_no (dispatch incnt outcnt dest c)
unfolding dispatch
dispatch-Fits incnt outcnt (pos zero) c h = elim (Bool-cases (ltb_ℤ c.plugin_no (pos incnt))) [
  | inl e ↦ rw e (refl, (refl, below c.plugin_no incnt e, h.0, h.1, h.2))
  | inr e ↦ rw e (λ q. not-IsBelow c.plugin_no incnt e q.1, λ q. zero_not_one q.0)
]
dispatch-Fits incnt outcnt (pos (suc zero)) c h =
    elim (Bool-cases (ltb_ℤ c.plugin_no (pos outcnt))) [
      | inl e ↦ rw e (refl, (refl, below c.plugin_no outcnt e, h.0, h.1, h.2))
      | inr e ↦ rw e (λ q. zero_not_one (sym q.0), λ q. not-IsBelow c.plugin_no outcnt e q.1)
    ]
dispatch-Fits incnt outcnt (pos (suc (suc n))) c h =
    (λ q. omega (arith, ap pos_part q.0), λ q. omega (arith, ap pos_part q.0))
dispatch-Fits incnt outcnt (negsuc n) c h =
    (λ q. omega (arith, ap neg_part q.0), λ q. omega (arith, ap neg_part q.0))

with_id-Fits :
    (incnt outcnt : ℕ) (parameter : Bytes) (o : Option Bytes)
    → ResultFits incnt outcnt parameter (with_id incnt outcnt parameter o)
unfolding with_id requested
with_id-Fits incnt outcnt parameter none = refl
with_id-Fits incnt outcnt parameter (some s) = (
  dispatch-Fits incnt outcnt _ _ (number_at-IsInt _, number_or-IsInt _, number_or-IsInt _),
  all-elem is_word id_chars (span s id_chars) refl (all-span s id_chars),
)

-- Whatever the parameter is, `command` refuses it with the code 400, or answers it with a name of
-- letters, digits and `_` alone. It then calls an input plugin for the destination 0, and an output
-- plugin for 1, with the plugin number of the parameter, which is below the number of loaded plugins
-- of this kind, and an `int` for the command, the group and the value; or it calls nobody, where the
-- destination is another or the plugin number is not below.
pub command_fits :
    (incnt outcnt : ℕ) (parameter : Bytes)
    → (command incnt outcnt none ≡ bad_parameter)
      × ResultFits incnt outcnt parameter (command incnt outcnt (some parameter))
unfolding command
command_fits incnt outcnt parameter = (
  refl,
  elim (Bool-cases (leb 255 (length parameter) || length parameter == 0)) [
    | inl e ↦ rw e refl
    | inr e ↦ rw e (with_id-Fits incnt outcnt parameter _)
  ],
)
