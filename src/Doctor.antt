-- ===== src/Doctor.antt =====
-- `run_doctor` and `print_token_template` of skv-analyzer/src/main.rs.
use sentinel_kv.Prelude.{
  ℕ, ◌+◌, Bool, true, false, ◌&&◌, none, some, List, [], ◌∷◌, ◌++◌, Text, text, decimal, length,
  ltb, if◌then◌else◌,
}
use sentinel_kv.Prelude.Int.{ℤ, pos, negsuc}
use sentinel_kv.Policy.{RingMode, ring0, ring_m1, ring_m2, token_ring}
use sentinel_kv.Console.{Action, println, println_all, return, ◌>>◌}
use sentinel_kv.Emission.{escaped_item}

-- `(name, ok, detail)`
pub record DoctorCheck : Type 0 where
  pub name : Text
  pub passed : Bool
  pub detail : Text

unfoldable pub required_checks : Bool → List DoctorCheck
unfolding text
required_checks is_linux =
    record { name = text "os_supported"; passed = is_linux; detail = text "linux" }
    ∷ record {
      name = text "ffi_symbol_linked";
      passed = true;
      detail = text "attestation bridge linked";
    }
    ∷ []

unfoldable pub optional_checks : Bool → List DoctorCheck
unfolding text
optional_checks zig_ok =
    record {
      name = text "zig_available";
      passed = zig_ok;
      detail = if zig_ok then text "yes" else text "no";
    }
    ∷ []

unfoldable pub all_passed : List DoctorCheck → Bool
all_passed [] = true
all_passed (c ∷ l) = c.passed && all_passed l

unfoldable pub bool_text : Bool → Text
unfolding text
bool_text true = text "true"
bool_text false = text "false"

-- one of the two loops of the JSON output, from the number `i` of checks before it
unfoldable pub checks_json : Text → ℕ → List DoctorCheck → Text → Text
unfolding text bool_text escaped_item
checks_json required i [] out = out
checks_json required i (c ∷ l) out =
    let before = if ltb 0 i then out ++ text "," else out in
    checks_json required (i + 1) l (
      before
      ++ (text "{\"check\":\""
          ++ (c.name
              ++ (text "\",\"ok\":"
                  ++ (bool_text c.passed
                      ++ (text ",\"required\":"
                          ++ (required
                              ++ (text ",\"detail\":\""
                                  ++ (escaped_item c.detail ++ text "\"}")))))))))

unfoldable pub doctor_json : List DoctorCheck → List DoctorCheck → Text
unfolding text checks_json all_passed bool_text
doctor_json required optional =
    checks_json (text "false") (length required) optional
      (checks_json (text "true") 0 required (text "{\"doctor\":["))
    ++ (text "],\"all_ok\":" ++ (bool_text (all_passed required) ++ text "}"))

-- the lines of the output as text, with the words for a check that passed and one that did not
unfoldable pub check_lines : Text → Text → List DoctorCheck → List Text
unfolding text
check_lines failed kind [] = []
check_lines failed kind (c ∷ l) =
    (text "- "
      ++ (c.name
          ++ (text ": "
              ++ ((if c.passed then text "OK" else failed) ++ (kind ++ (c.detail ++ text ")"))))))
    ∷ check_lines failed kind l

unfoldable pub doctor_lines : List DoctorCheck → List DoctorCheck → List Text
unfolding text check_lines all_passed
doctor_lines required optional =
    (text "SKV Analyzer Doctor" ∷ check_lines (text "FAIL") (text " [required] (") required)
    ++ (check_lines (text "WARN") (text " [optional] (") optional
        ++ ((text "overall: " ++ (if all_passed required then text "OK" else text "FAIL")) ∷ []))

-- `run_doctor`, on what the build and the search for zig give
unfoldable pub run_doctor : Bool → Bool → Bool → Action Bool
unfolding required_checks optional_checks all_passed doctor_json doctor_lines
run_doctor is_linux zig_ok json = do
  let required = required_checks is_linux
  let optional = optional_checks zig_ok
  if json
      then println (doctor_json required optional)
      else println_all (doctor_lines required optional)
  return (all_passed required)

-- a ring's number as `{}` prints it
unfoldable pub integer_text : ℤ → Text
unfolding text
integer_text (pos n) = decimal n
integer_text (negsuc n) = text "-" ++ decimal (n + 1)

-- `ring.token_ring().unwrap_or(0)`
unfoldable pub ring_num : RingMode → ℤ
unfolding token_ring
ring_num ring = elim (token_ring ring) [ none ↦ pos 0 | some n ↦ n ]

unfoldable pub is_ring_m2 : RingMode → Bool
is_ring_m2 ring_m2 = true
is_ring_m2 ring_m1 = false
is_ring_m2 ring0 = false

unfoldable pub token_template_json : RingMode → Text
unfolding text ring_num integer_text is_ring_m2
token_template_json ring =
    text "{\"ring\":"
    ++ (integer_text (ring_num ring)
        ++ (if is_ring_m2 ring
            then text
                ",\"attested\":true,\"root_attested\":true,\"timestamp\":1700000000,\"nonce\":\"<nonce>\",\"counter\":1}"
            else text
                ",\"attested\":true,\"timestamp\":1700000000,\"nonce\":\"<nonce>\",\"counter\":1}"))

unfoldable pub token_template : RingMode → List Text
unfolding text ring_num integer_text is_ring_m2
token_template ring =
    (text "ring:" ++ integer_text (ring_num ring))
    ∷ text "attested:true"
    ∷ ((if is_ring_m2 ring then text "root_attested:true" ∷ [] else [])
        ++ (text "timestamp:1700000000" ∷ text "nonce:<nonce>" ∷ text "counter:1" ∷ []))

unfoldable pub print_token_template : RingMode → Bool → Action (Unit {0})
unfolding token_template_json token_template
print_token_template ring json =
    if json then println (token_template_json ring) else println_all (token_template ring)
