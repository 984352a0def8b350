-- ===== src/Tui.antt =====
-- `run_tui` and `pause_tui` of skv-analyzer/src/main.rs: the menu loop. What the user does is a list
-- of inputs; behind its end the standard input is closed, and each read gives an empty line.
pub mod Loop
use sentinel_kv.Prelude.{
  ℕ, zero, suc, Bool, true, false, ◌||◌, Option, none, some, List, [], ◌∷◌, ◌++◌, map, Text, text,
  text_beq, trim, to_lower, if◌then◌else◌,
}
use sentinel_kv.Policy.{ring_m1, ring_m2}
use sentinel_kv.Host.{Result, ok, err}
use sentinel_kv.Console.{Effect, printed, Action, println, println_all, return, ◌>>=◌, ◌>>◌}
use sentinel_kv.Catalog.{print_feature_catalog, feature_catalog_json}
use sentinel_kv.Doctor.{run_doctor, print_token_template}

-- What one prompt meets: `flush` fails, `read_line` fails, or a line is read.
pub data Input : Type 0 where
  no_flush no_read : Input
  line : Text → Input

pub data Choice : Type 0 where
  doctor features features_json template_m1 template_m2 quit invalid : Choice

-- the match on `input.trim().to_ascii_lowercase()`
unfoldable pub choice_of : Text → Choice
unfolding text
choice_of input =
    let s = map to_lower (trim input) in
    if text_beq s (text "1") || text_beq s (text "d")
    then doctor
    else if text_beq s (text "2") || text_beq s (text "f")
    then features
    else if text_beq s (text "3")
    then features_json
    else if text_beq s (text "4")
    then template_m1
    else if text_beq s (text "5") || text_beq s (text "j")
    then template_m2
    else if text_beq s (text "0") || text_beq s (text "q")
    then quit
    else invalid

unfoldable pub doctor_status : Bool → Text
unfolding text
doctor_status all_ok =
    if all_ok
    then text "\u{1b}[1;32mDoctor status code: 0\u{1b}[0m"
    else text "\u{1b}[1;31mDoctor status code: 12\u{1b}[0m"

-- what an arm prints before the pause; `is_linux` and `zig_ok` are what the doctor finds
unfoldable pub show_choice : Bool → Bool → Choice → Action (Unit {0})
unfolding text doctor_status feature_catalog_json
show_choice is_linux zig_ok doctor = do
  println []
  all_ok ← run_doctor is_linux zig_ok false
  println []
  println (doctor_status all_ok)
show_choice is_linux zig_ok features = do println []; print_feature_catalog; println []
show_choice is_linux zig_ok features_json = do println []; println feature_catalog_json; println []
show_choice is_linux zig_ok template_m1 = do
  println []
  print_token_template ring_m1 false
  println []
show_choice is_linux zig_ok template_m2 = do
  println []
  print_token_template ring_m2 false
  println []
show_choice is_linux zig_ok quit = return tt
show_choice is_linux zig_ok invalid = do
  println []
  println (text "\u{1b}[1;31mInvalid selection.\u{1b}[0m Choose 0-5 or d/f/j/q.")

-- The screen; what `print!` leaves open stands as a line of its own.
unfoldable pub screen : List Text
unfolding text
screen =
    text "\u{1b}[2J\u{1b}[H"
    ∷ text "\u{1b}[1;36m╔══════════════════════════════════════════════════════════╗\u{1b}[0m"
    ∷ text "\u{1b}[1;36m║                    SKV ANALYZER CONSOLE                 ║\u{1b}[0m"
    ∷ text "\u{1b}[1;36m╠══════════════════════════════════════════════════════════╣\u{1b}[0m"
    ∷ text "\u{1b}[1;34m║ Security Operations                                     ║\u{1b}[0m"
    ∷ text "║   1) Doctor diagnostics                                 ║"
    ∷ text "║   2) Features catalog (text)   [shortcut: f]            ║"
    ∷ text "║   3) Features catalog (json)                            ║"
    ∷ text "║                                                          ║"
    ∷ text "\u{1b}[1;34m║ Attestation Utilities                                    ║\u{1b}[0m"
    ∷ text "║   4) Token template (ring-1)                            ║"
    ∷ text "║   5) Token template (ring-2)   [shortcut: j]            ║"
    ∷ text "║                                                          ║"
    ∷ text "\u{1b}[1;34m║ Session                                                  ║\u{1b}[0m"
    ∷ text "║   0) Exit                     [shortcut: q]             ║"
    ∷ text "║   d) Doctor                   [shortcut: d]             ║"
    ∷ text "\u{1b}[1;36m╚══════════════════════════════════════════════════════════╝\u{1b}[0m"
    ∷ text "\u{1b}[1;33mSelect action [0-5 | d/f/j/q]: \u{1b}[0m"
    ∷ []

-- The next input, and those behind it.
unfoldable pub next_input : List Input → Input × List Input
next_input [] = (line [], [])
next_input (i ∷ inputs) = (i, inputs)

-- a result, or the inputs with which the loop goes on
pub data Turn : Type 0 where
  returns : Result ℕ → List Effect → Turn
  again : List Input → List Effect → Turn

abbrev pub press_enter : Effect
press_enter = printed (text "Press Enter to continue...")

-- `pause_tui()?` at the end of an arm
unfoldable pub pause_tui : Input × List Input → List Effect → Turn
unfolding text
pause_tui (no_flush, rest) log =
    returns (err (text "Failed to flush stdout")) (log ++ press_enter ∷ [])
pause_tui (no_read, rest) log =
    returns (err (text "Failed to read pause input")) (log ++ press_enter ∷ [])
pause_tui (line s, rest) log = again rest (log ++ press_enter ∷ [])

unfoldable pub after_show : List Input → Result (Unit {0}) × List Effect → Turn
unfolding pause_tui next_input
after_show rest (ok _, log) = pause_tui (next_input rest) log
after_show rest (err e, log) = returns (err e) log

unfoldable pub is_quit : Choice → Bool
is_quit quit = true
is_quit _ = false

-- the prompt and the match on its answer
unfoldable pub prompt : Bool → Bool → Input × List Input → List Effect → Turn
unfolding text choice_of show_choice after_show is_quit
prompt is_linux zig_ok (no_flush, rest) log = returns (err (text "Failed to flush stdout")) log
prompt is_linux zig_ok (no_read, rest) log = returns (err (text "Failed to read TUI input")) log
prompt is_linux zig_ok (line s, rest) log =
    if is_quit (choice_of s)
    then returns (ok 0) log
    else after_show rest (show_choice is_linux zig_ok (choice_of s) log)

-- one round of the loop: the screen, and the prompt
unfoldable pub turn : Bool → Bool → List Input → List Effect → Turn
unfolding prompt screen println_all next_input
turn is_linux zig_ok inputs log =
    prompt is_linux zig_ok (next_input inputs) (println_all screen log).1

-- At most as many rounds as there is fuel; `none` while the loop goes on.
unfoldable pub run_tui :
    ℕ → Bool → Bool → List Input → List Effect → Option (Result ℕ × List Effect)
unfolding turn
run_tui zero is_linux zig_ok inputs log = none
run_tui (suc f) is_linux zig_ok inputs log = elim (turn is_linux zig_ok inputs log) [
  | returns r after ↦ some (r, after)
  | again rest after ↦ run_tui f is_linux zig_ok rest after
]
