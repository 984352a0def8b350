-- ===== src/Tui/Loop.antt =====
-- When the menu loop of `run_tui` (skv-analyzer/src/main.rs) comes to an end.
use sentinel_kv.Prelude.{
  ℕ, zero, suc, ◌≡◌, refl, Bool, true, false, ◌||◌, Option, none, some, List, [], ◌∷◌, ◌++◌, map,
  Text, text, text_beq, trim, trim_start, to_lower, length, Bool-cases, ◌≤◌, inl, inr, arith,
}
use sentinel_kv.Host.{Result, ok, err}
use sentinel_kv.Console.{Effect, printed, println_all, and_then}
use sentinel_kv.Catalog.{print_feature_catalog}
use sentinel_kv.Doctor.{
  run_doctor, print_token_template, token_template, doctor_lines, required_checks, optional_checks,
}
use sentinel_kv.Policy.{ring_m1, ring_m2}
use sentinel_kv.Tui.{
  Input, line, Choice, doctor, features, features_json, template_m1, template_m2, quit, invalid,
  choice_of, show_choice, next_input, returns, again, pause_tui, after_show, is_quit, prompt, turn,
  screen, run_tui, press_enter,
}

-- Of the lines that answer a prompt, which are every second one, some choice is to leave.
abbrev pub quits : List Text → Bool
quits [] = false
quits (s ∷ []) = is_quit (choice_of s)
quits (s ∷ pause ∷ rest) = is_quit (choice_of s) || quits rest

println_all-ok : (l : List Text) (log : List Effect) → (println_all l log).0 ≡ ok tt
unfolding println_all
println_all-ok [] log = refl
println_all-ok (s ∷ l) log = println_all-ok l (log ++ printed s ∷ [])

-- a list of lines between two empty ones
println_all-then :
    (l : List Text) (log : List Effect) {B : Type 0}
    (f : Unit {0} → List Effect → Result B × List Effect)
    → and_then (println_all l log) f ≡ f tt (println_all l log).1
unfolding println_all
println_all-then [] log f = unfold and_then in refl
println_all-then (s ∷ l) log f = println_all-then l (log ++ printed s ∷ []) f

show_choice-ok :
    (is_linux zig_ok : Bool) (c : Choice) (log : List Effect)
    → (show_choice is_linux zig_ok c log).0 ≡ ok tt
unfolding show_choice and_then
show_choice-ok is_linux zig_ok doctor log =
    unfold run_doctor in
    rw (println_all-then (doctor_lines (required_checks is_linux) (optional_checks zig_ok)) _ _)
      refl
show_choice-ok is_linux zig_ok features log = unfold print_feature_catalog in refl
show_choice-ok is_linux zig_ok features_json log = refl
show_choice-ok is_linux zig_ok template_m1 log =
    unfold print_token_template in rw (println_all-then (token_template ring_m1) _ _) refl
show_choice-ok is_linux zig_ok template_m2 log =
    unfold print_token_template in rw (println_all-then (token_template ring_m2) _ _) refl
show_choice-ok is_linux zig_ok quit log = refl
show_choice-ok is_linux zig_ok invalid log = refl

after_show-line :
    (p : Text) (rest : List Input) (r : Result (Unit {0}) × List Effect)
    → r.0 ≡ ok tt
    → after_show (line p ∷ rest) r ≡ again rest (r.1 ++ press_enter ∷ [])
unfolding after_show pause_tui next_input
after_show-line p rest (ok _, log) h = refl
after_show-line p rest (err e, log) h = cc

after_show_end :
    (r : Result (Unit {0}) × List Effect)
    → r.0 ≡ ok tt
    → after_show [] r ≡ again [] (r.1 ++ press_enter ∷ [])
unfolding after_show pause_tui next_input
after_show_end (ok _, log) h = refl
after_show_end (err e, log) h = cc

or-false : (a b : Bool) → (a || b) ≡ false → (a ≡ false) × (b ≡ false)
or-false a b h = ground arith

or-right : (a b : Bool) → a ≡ false → (a || b) ≡ true → b ≡ true
or-right a b e h = ground arith

module _ (is_linux zig_ok : Bool) where
  -- what one round does with a choice that is not to leave
  abbrev shown : Text → List Effect → List Effect
  shown s log =
      (show_choice is_linux zig_ok (choice_of s) (println_all screen log).1).1 ++ press_enter ∷ []

  turn-quit :
      (s : Text) (rest : List Input) (log : List Effect)
      → is_quit (choice_of s) ≡ true
      → turn is_linux zig_ok (line s ∷ rest) log ≡ returns (ok 0) (println_all screen log).1
  unfolding turn next_input prompt
  turn-quit s rest log h = rw h refl

  turn-again :
      (s p : Text) (rest : List Input) (log : List Effect)
      → is_quit (choice_of s) ≡ false
      → turn is_linux zig_ok (line s ∷ line p ∷ rest) log ≡ again rest (shown s log)
  unfolding turn next_input prompt
  turn-again s p rest log h =
      rw h (after_show-line p rest _ (show_choice-ok is_linux zig_ok (choice_of s) _))

  turn-last :
      (s : Text) (log : List Effect)
      → is_quit (choice_of s) ≡ false
      → turn is_linux zig_ok (line s ∷ []) log ≡ again [] (shown s log)
  unfolding turn next_input prompt
  turn-last s log h = rw h (after_show_end _ (show_choice-ok is_linux zig_ok (choice_of s) _))

  -- an empty line is no choice
  turn-closed : (log : List Effect) → turn is_linux zig_ok [] log ≡ again [] (shown [] log)
  unfolding turn next_input prompt choice_of trim trim_start to_lower text_beq text is_quit
  turn-closed log = after_show_end _ (show_choice-ok is_linux zig_ok invalid _)

  run_tui-returns :
      (f : ℕ) (inputs : List Input) (log after : List Effect) (r : Result ℕ)
      → turn is_linux zig_ok inputs log ≡ returns r after
      → run_tui (suc f) is_linux zig_ok inputs log ≡ some (r, after)
  unfolding run_tui
  run_tui-returns f inputs log after r h = rw (h, run_tui) refl

  run_tui-again :
      (f : ℕ) (inputs rest : List Input) (log after : List Effect)
      {o : Option (Result ℕ × List Effect)}
      → turn is_linux zig_ok inputs log ≡ again rest after
      → run_tui f is_linux zig_ok rest after ≡ o
      → run_tui (suc f) is_linux zig_ok inputs log ≡ o
  unfolding run_tui
  run_tui-again f inputs rest log after h k = rw (h, run_tui) k

  -- If one of the lines that answer a prompt chooses to leave, the menu returns with status 0 after
  -- at most as many rounds as there are lines.
  pub run_tui-quits :
      (f : ℕ) (lines : List Text) (log : List Effect)
      → length lines ≤ f
      → quits lines ≡ true
      → (after : List Effect) × (run_tui f is_linux zig_ok (map line lines) log
          ≡ some (ok 0, after))
  run_tui-quits f [] log le h = absurd (ground arith)
  run_tui-quits zero (s ∷ []) log le h = absurd (omega arith)
  run_tui-quits (suc f) (s ∷ []) log le h =
      (_, run_tui-returns f _ log _ (ok 0) (turn-quit s [] log h))
  run_tui-quits zero (s ∷ p ∷ rest) log le h = absurd (omega arith)
  run_tui-quits (suc f) (s ∷ p ∷ rest) log le h = elim (Bool-cases (is_quit (choice_of s))) [
    | inl yes_quit ↦
        (_, run_tui-returns f _ log _ (ok 0) (turn-quit s (map line (p ∷ rest)) log yes_quit))
    | inr no_quit ↦
        let (after, done) =
          run_tui-quits f rest (shown s log) (omega arith) (or-right _ _ no_quit h) in
        (after, run_tui-again f _ _ log _ (turn-again s p (map line rest) log no_quit) done)
  ]

  -- If none of the lines that answer a prompt chooses to leave, the menu never returns, however many
  -- rounds it runs, also behind the end of the input.
  pub run_tui-stays :
      (f : ℕ) (lines : List Text) (log : List Effect)
      → quits lines ≡ false
      → run_tui f is_linux zig_ok (map line lines) log ≡ none
  run_tui-stays zero lines log h = unfold run_tui in refl
  run_tui-stays (suc f) [] log h =
      run_tui-again f [] [] log _ (turn-closed log) (run_tui-stays f [] _ h)
  run_tui-stays (suc f) (s ∷ []) log h =
      run_tui-again f _ _ log _ (turn-last s log h) (run_tui-stays f [] _ refl)
  run_tui-stays (suc f) (s ∷ p ∷ rest) log h =
      let (hs, hr) = or-false (is_quit (choice_of s)) (quits rest) h in
      run_tui-again f _ _ log _ (turn-again s p (map line rest) log hs) (run_tui-stays f rest _ hr)
