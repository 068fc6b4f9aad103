-- ===== src/Main/Tests.antt =====
-- Runs of `split_parameters`, and its theorem at a concrete input.
use robotica_movel.Prelude.{[], ◌∷◌, some, ◌≡◌, refl, Bytes, codes, All, Bool, true, false}
use robotica_movel.CString.{strchr, is_some, elem}
use robotica_movel.Main.Startup.{
  Plugin, input, output, init, run, open_plugins, run_inputs, run_outputs, start_plugins,
  close_outputs, main_options, input_option, background, no_choices,
}
use robotica_movel.Main.Startup.Order.{IsFront, full_order, start_plugins-IsFront}
use robotica_movel.Main.{split_parameters, tokens, words_or_none, IsWord, split_parameters_lem}

abbrev uvc_plugin : Bytes
uvc_plugin = codes "input_uvc.so  -r 640x480"

three_words :
    split_parameters (some uvc_plugin)
    ≡ some (codes "input_uvc.so" ∷ codes "-r" ∷ codes "640x480" ∷ [])
unfolding split_parameters strchr is_some
three_words = refl

split_parameters_lem_example :
    All IsWord (tokens uvc_plugin)
    × (split_parameters (some uvc_plugin) ≡ words_or_none (tokens uvc_plugin))
split_parameters_lem_example = split_parameters_lem uvc_plugin (unfold strchr is_some in refl)

abbrev plugin : Bool → Plugin
plugin runs = record {
  text = codes "p.so";
  locks = true;
  opens = true;
  has_symbols = true;
  inits = true;
  runs = runs;
}

-- The second input does not run, so no output does.
start_in_turn : start_plugins (plugin true ∷ plugin false ∷ []) (plugin true ∷ []) ≡ (
  init input 0 (some [])
      ∷ init input 1 (some [])
      ∷ init output 0 (some [])
      ∷ run input 0
      ∷ run input 1
      ∷ [],
  false,
)
unfolding start_plugins open_plugins run_inputs run_outputs split_parameters strchr is_some
start_in_turn = refl

start_plugins-IsFront_example :
    IsFront
      (◌≡◌ {A = Bool} false false)
      (full_order (plugin true ∷ plugin false ∷ []) (plugin true ∷ []))
      (start_plugins (plugin true ∷ plugin false ∷ []) (plugin true ∷ []))
start_plugins-IsFront_example =
    start_plugins-IsFront (plugin true ∷ plugin false ∷ []) (plugin true ∷ [])

main_options_run :
    main_options (input_option (codes "a") ∷ background ∷ []) no_choices
    ≡ some (record no_choices { inputs = codes "a" ∷ []; daemon = true })
unfolding main_options
main_options_run = refl

close_outputs_run : close_outputs (5 ∷ 6 ∷ 5 ∷ []) ≡ 6 ∷ 5 ∷ []
unfolding close_outputs elem
close_outputs_run = refl
