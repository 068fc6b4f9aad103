-- ===== src/Main/Startup/Order.antt =====
-- mjpg_streamer.c: the order in which the functions of the plugins are called.
use robotica_movel.Prelude.{
  ℕ, suc, ◌≡◌, refl, sym, ap, ◌∙◌, Bool, true, false, ◌&&◌, List, [], ◌∷◌, ◌++◌, if◌then◌else◌,
  append_assoc, all, arith,
}
use mathlib.Core.Path.{subst}
use robotica_movel.Main.Startup.{
  Plugin, Kind, input, output, Call, run, init_call, Done, before, and_then, has_locks,
  open_plugins, run_inputs, run_outputs, start_plugins,
}

abbrev inits_from : Kind → ℕ → List Plugin → List Call
inits_from k i [] = []
inits_from k i (p ∷ ps) = init_call k i p ∷ inits_from k (suc i) ps

abbrev runs_from : Kind → ℕ → List Plugin → List Call
runs_from k i [] = []
runs_from k i (p ∷ ps) = run k i ∷ runs_from k (suc i) ps

-- Every plugin is initialised before the first one runs, the inputs before the outputs, in order.
abbrev pub full_order : List Plugin → List Plugin → List Call
full_order ins outs =
    inits_from input 0 ins
    ++ (inits_from output 0 outs ++ (runs_from input 0 ins ++ runs_from output 0 outs))

-- No call for the plugin fails.
abbrev pub works : Plugin → Bool
works p = p.locks && p.opens && p.has_symbols && p.inits && p.runs

-- All of the calls, where the program goes on; else a part of them from the front, and `F`.
pub data IsFront (F : Type 0) (full : List Call) : Done → Type 0 where
  all_of : {cs : List Call} → full ≡ cs → IsFront F full (cs, true)
  part_of : {cs : List Call} (rest : List Call) → full ≡ cs ++ rest → F → IsFront F full (cs, false)

before-IsFront :
    {F : Type 0} (c : Call) (full : List Call) (d : Done)
    → IsFront F full d
    → IsFront F (c ∷ full) (before c d)
before-IsFront c full d (all_of e) = all_of (ap (◌∷◌ c) e)
before-IsFront c full d (part_of rest e f) = part_of rest (ap (◌∷◌ c) e) f

and_then-IsFront :
    {F : Type 0} (full next : List Call) (d e : Done)
    → IsFront F full d
    → IsFront F next e
    → IsFront F (full ++ next) (and_then d e)
and_then-IsFront full next d e (part_of {cs} rest q f) k =
    part_of (rest ++ next) (ap (◌++ next) q ∙ append_assoc cs rest next) f
and_then-IsFront full next d e (all_of q) (all_of r) = all_of (λ i. q i ++ r i)
and_then-IsFront full next d e (all_of {cs} q) (part_of {cs = ds} rest r f) =
    part_of rest ((λ i. q i ++ r i) ∙ sym (append_assoc cs ds rest)) f

IsFront-map :
    {F G : Type 0} {full : List Call} {d : Done} → (F → G) → IsFront F full d → IsFront G full d
IsFront-map g (all_of e) = all_of e
IsFront-map g (part_of rest e f) = part_of rest e (g f)

-- A failure stays one in a longer list.
later_fails : (b c : Bool) → c ≡ false → (b && c) ≡ false
later_fails true c h = h
later_fails false c h = refl

first_fails : (p : Plugin) (b : Bool) → works p ≡ false → (works p && b) ≡ false
first_fails p b h = ap (◌&& b) h

not_ready :
    (k : Kind) (p : Plugin) → (has_locks k p && p.opens && p.has_symbols) ≡ false → works p ≡ false
not_ready input p q = ground (arith, q)
not_ready output p q = ground (arith, q)

open_plugins-IsFront :
    (k : Kind) (i : ℕ) (ps : List Plugin)
    → IsFront (all works ps ≡ false) (inits_from k i ps) (open_plugins k i ps)
unfolding open_plugins
open_plugins-IsFront k i [] = all_of refl
open_plugins-IsFront k i (p ∷ ps) =
    by_tests (has_locks k p && p.opens && p.has_symbols) p.inits refl refl
      (IsFront-map (later_fails (works p) (all works ps)) (open_plugins-IsFront k (suc i) ps))
  where
    by_tests :
        (a b : Bool)
        → (has_locks k p && p.opens && p.has_symbols) ≡ a
        → p.inits ≡ b
        → IsFront
            ((works p && all works ps) ≡ false)
            (inits_from k (suc i) ps)
            (open_plugins k (suc i) ps)
        → IsFront ((works p && all works ps) ≡ false) (init_call k i p ∷ inits_from k (suc i) ps) (
            if a
            then before (init_call k i p) (if b then open_plugins k (suc i) ps else ([], false))
            else ([], false))
    by_tests true true q r h = before-IsFront (init_call k i p) (inits_from k (suc i) ps) _ h
    by_tests true false q r h = part_of _ refl (ground (arith, r))
    by_tests false b q r h = part_of _ refl (first_fails p (all works ps) (not_ready k p q))

run_inputs-IsFront :
    (i : ℕ) (ps : List Plugin)
    → IsFront (all works ps ≡ false) (runs_from input i ps) (run_inputs i ps)
unfolding run_inputs
run_inputs-IsFront i [] = all_of refl
run_inputs-IsFront i (p ∷ ps) = before-IsFront (run input i) (runs_from input (suc i) ps) _ (
    by_run p.runs refl
      (IsFront-map (later_fails (works p) (all works ps)) (run_inputs-IsFront (suc i) ps)))
  where
    by_run :
        (b : Bool)
        → p.runs ≡ b
        → IsFront
            ((works p && all works ps) ≡ false)
            (runs_from input (suc i) ps)
            (run_inputs (suc i) ps)
        → IsFront
            ((works p && all works ps) ≡ false)
            (runs_from input (suc i) ps)
            (if b then run_inputs (suc i) ps else ([], false))
    by_run true e h = h
    by_run false e h = part_of _ refl (ground (arith, e))

run_outputs-All : (i : ℕ) (ps : List Plugin) → run_outputs i ps ≡ (runs_from output i ps, true)
unfolding run_outputs
run_outputs-All i [] = refl
run_outputs-All i (p ∷ ps) = ap (before (run output i)) (run_outputs-All (suc i) ps)

-- Whatever the plugins report: either main makes all calls in the full order, each input is
-- initialised, then each output, then each input runs, then each output, in the order of their numbers;
-- or it makes a part of them from the front, and a call for some plugin has failed.
pub start_plugins-IsFront :
    (ins outs : List Plugin)
    → IsFront
        ((all works ins && all works outs) ≡ false)
        (full_order ins outs)
        (start_plugins ins outs)
unfolding start_plugins
start_plugins-IsFront ins outs =
    and_then-IsFront (inits_from input 0 ins)
      (inits_from output 0 outs ++ (runs_from input 0 ins ++ runs_from output 0 outs))
      (open_plugins input 0 ins) _ (IsFront-map in_ins (open_plugins-IsFront input 0 ins))
      (and_then-IsFront (inits_from output 0 outs)
        (runs_from input 0 ins ++ runs_from output 0 outs) (open_plugins output 0 outs) _
        (IsFront-map (later_fails (all works ins) (all works outs))
          (open_plugins-IsFront output 0 outs))
        (and_then-IsFront (runs_from input 0 ins) (runs_from output 0 outs) (run_inputs 0 ins)
          (run_outputs 0 outs) (IsFront-map in_ins (run_inputs-IsFront 0 ins))
          (subst (IsFront _ (runs_from output 0 outs)) (sym (run_outputs-All 0 outs))
            (all_of refl))))
  where
    in_ins : all works ins ≡ false → (all works ins && all works outs) ≡ false
    in_ins h = ap (◌&& all works outs) h
