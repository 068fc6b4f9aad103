-- ===== src/Main/Startup.antt =====
-- mjpg_streamer.c: the options of `main`, and how it opens and starts the plugins.
pub mod Order
use robotica_movel.Prelude.{
  ℕ, zero, suc, ◌+◌, Bool, true, false, ◌&&◌, ◌||◌, List, [], ◌∷◌, ◌++◌, Option, none, some, ltb,
  ◌==◌, if◌then◌else◌, Bytes, codes, length,
}
use robotica_movel.CString.{strchr, elem}
use robotica_movel.Main.{split_parameters}

-- What `getopt_long` reports before it returns -1.
pub data MainOption : Type 0 where
  input_option : Bytes → MainOption
  output_option : Bytes → MainOption
  version : MainOption
  background : MainOption
  help : MainOption

-- `input`, `output` and `daemon`; `wild` tells whether an entry was written behind a table.
pub record Choices : Type 0 where
  pub inputs : List Bytes
  pub outputs : List Bytes
  pub daemon : Bool
  pub wild : Bool

abbrev pub no_choices : Choices
no_choices = record { inputs = []; outputs = []; daemon = false; wild = false }

abbrev pub max_plugins : ℕ
max_plugins = 10

abbrev pub is_full : List Bytes → Bool
is_full texts = ltb 9 (length texts)

-- The loop over the options; none where the program ends.
unfoldable pub main_options : List MainOption → Choices → Option Choices
main_options [] c = some c
main_options (input_option text ∷ os) c =
    main_options os (record c { inputs = c.inputs ++ text ∷ []; wild = c.wild || is_full c.inputs })
main_options (output_option text ∷ os) c =
    main_options os
      (record c { outputs = c.outputs ++ text ∷ []; wild = c.wild || is_full c.outputs })
main_options (background ∷ os) c = main_options os (record c { daemon = true })
main_options (version ∷ os) c = none
main_options (help ∷ os) c = none

-- "check if at least one output plugin was selected"
unfoldable pub with_default : List Bytes → List Bytes
with_default [] = codes "output_http.so --port 8080" ∷ []
with_default (t ∷ ts) = t ∷ ts

-- The texts of a plugin, and what the calls for it report: the mutex and the condition variable of an
-- input, `dlopen`, `dlsym` for the three functions that it must have, and what `init` and `run` return.
pub record Plugin : Type 0 where
  pub text : Bytes
  pub locks : Bool
  pub opens : Bool
  pub has_symbols : Bool
  pub inits : Bool
  pub runs : Bool

pub data Kind : Type 0 where
  input : Kind
  output : Kind

-- A call of a function of a plugin, with its number; `argv` is missing where `split_parameters`
-- refuses, which `main` does not look at.
pub data Call : Type 0 where
  init : Kind → ℕ → (argv : Option (List Bytes)) → Call
  run : Kind → ℕ → Call

abbrev pub init_call : Kind → ℕ → Plugin → Call
init_call k i p = init k i (split_parameters (strchr p.text b' '))

-- What is done, and whether the program goes on.
abbrev pub Done : Type 0
Done = List Call × Bool

abbrev pub before : Call → Done → Done
before c (cs, ok) = (c ∷ cs, ok)

abbrev pub and_then : Done → Done → Done
and_then (cs, false) next = (cs, false)
and_then (cs, true) (ds, ok) = (cs ++ ds, ok)

abbrev pub has_locks : Kind → Plugin → Bool
has_locks input p = p.locks
has_locks output p = true

unfoldable pub open_plugins : Kind → ℕ → List Plugin → Done
open_plugins k i [] = ([], true)
open_plugins k i (p ∷ ps) =
    let rest = open_plugins k (suc i) ps in
    if has_locks k p && p.opens && p.has_symbols
    then before (init_call k i p) (if p.inits then rest else ([], false))
    else ([], false)

unfoldable pub run_inputs : ℕ → List Plugin → Done
run_inputs i [] = ([], true)
run_inputs i (p ∷ ps) =
    let rest = run_inputs (suc i) ps in before (run input i) (if p.runs then rest else ([], false))

-- What the `run` of an output returns is not looked at.
unfoldable pub run_outputs : ℕ → List Plugin → Done
run_outputs i [] = ([], true)
run_outputs i (p ∷ ps) = before (run output i) (run_outputs (suc i) ps)

-- `main` behind its options, up to `pause`.
unfoldable pub start_plugins : List Plugin → List Plugin → Done
start_plugins ins outs =
    and_then (open_plugins input 0 ins)
      (and_then (open_plugins output 0 outs) (and_then (run_inputs 0 ins) (run_outputs 0 outs)))

-- The end of `signal_handler`: the handles of the outputs, each unless it comes again.
unfoldable pub close_outputs : List ℕ → List ℕ
close_outputs [] = []
close_outputs (h ∷ hs) = if elem h hs then close_outputs hs else h ∷ close_outputs hs
