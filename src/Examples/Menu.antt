-- ===== src/Examples/Menu.antt =====
-- The menu and the catalog on concrete inputs.
use sentinel_kv.Prelude.{
  ◌≡◌, refl, true, false, none, some, List, [], ◌∷◌, map, Text, text, length, ◌≤◌, arith,
}
use sentinel_kv.Host.{ok}
use sentinel_kv.Console.{Effect}
use sentinel_kv.Tui.{line, run_tui}
use sentinel_kv.Tui.Loop.{quits, run_tui-quits, run_tui-stays}
use sentinel_kv.Examples.Ran.{ran}

-- the features, Enter, and the exit
abbrev answers : List Text
answers = text "F\n" ∷ text "\n" ∷ text " q\n" ∷ []

answers_quit : quits answers ≡ true
unfolding ran
answers_quit = refl

features_stay : quits (text "f\n" ∷ []) ≡ false
unfolding ran
features_stay = refl

three_rounds : length answers ≤ 3
three_rounds = omega arith

run_tui-quits_example :
    (after : List Effect) × (run_tui 3 true false (map line answers) [] ≡ some (ok 0, after))
run_tui-quits_example = run_tui-quits true false 3 answers [] three_rounds answers_quit

run_tui-stays_example : run_tui 100 true false (map line (text "f\n" ∷ [])) [] ≡ none
run_tui-stays_example = run_tui-stays true false 100 (text "f\n" ∷ []) [] features_stay
