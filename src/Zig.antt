-- ===== src/Zig.antt =====
-- `skv_validate_attestation_token` of skv-analyzer/src/zig/attestation_bridge.zig, the optional
-- implementation of the attestation bridge, as it is built with `-O ReleaseSafe`: an assertion of the
-- standard library that does not hold and an overflow end the process.
pub mod Parse
pub mod Presents
pub mod Printed
pub mod Range
pub mod Works
pub mod Refines
pub mod Insecure
pub mod Parity
pub mod Entries
use sentinel_kv.Prelude.{
  ℕ, ◌^◌, Bool, true, false, not, ◌&&◌, Option, none, some, [], ◌∷◌, Text, length, ltb, leb,
  nat_beq, if◌then◌else◌,
}
use sentinel_kv.Prelude.Int.{ℤ, pos, negsuc, ◌-ℤ◌, ltb_ℤ}
use sentinel_kv.Host.{Metadata}
use sentinel_kv.Files.{others_write}
use sentinel_kv.Bridge.Parse.{Token}
use sentinel_kv.Bridge.{is_empty, eq_ℤ, root_ok, nonce_ok, take, counter_line}
use sentinel_kv.Zig.Parse.{trim_line, parse_int, next_line, read_token}

-- What the system calls of one call of the function give.
pub record Os : Type 0 where
  pub lstat : Text → Option Metadata
  pub open_file : Text → Option Text
  pub timestamp : ℤ
  -- on the replay state: to open it, to create it, what a new file is like, how many bytes are written
  pub open_state : Bool
  pub create_file : Bool
  pub new_file : Metadata
  pub written : ℕ

-- what `lstat` finds at the path of the replay state, and what is read there
pub record Replay : Type 0 where
  pub status : Option Metadata
  pub content : Text

-- `return false`, the end of the process, or on with a value
pub data Checked (A : Type 0) : Type 0 where
  refuses panics : Checked A
  passes : A → Checked A

infixl 5 ◌>>=◌ ◌>>◌
abbrev pub ◌>>=◌ : {A B : Type 0} → Checked A → (A → Checked B) → Checked B
refuses >>= rest = refuses
panics >>= rest = panics
passes a >>= rest = rest a

abbrev pub ◌>>◌ : {B : Type 0} → Checked (Unit {0}) → Checked B → Checked B
check >> rest = check >>= λ _. rest

unfoldable pub ensure : Bool → Checked (Unit {0})
ensure holds = if holds then passes tt else refuses

unfoldable pub assert : Bool → Checked (Unit {0})
assert holds = if holds then passes tt else panics

unfoldable pub found : {A : Type 0} → Option A → Checked A
found none = refuses
found (some a) = passes a

-- a regular file that nobody but its owner may write; the owner is not looked at
unfoldable pub is_secure_regular_file : Option Metadata → Bool
unfolding others_write
is_secure_regular_file none = false
is_secure_regular_file (some st) = st.is_file && not (others_write st.mode)

-- `std.fs.path.isAbsolute`
unfoldable pub is_absolute : Text → Bool
is_absolute [] = false
is_absolute (c ∷ path) = nat_beq c b'/'

-- the difference of two i64, the first of which is not less
unfoldable pub minus_i64 : ℤ → ℤ → Checked ℤ
minus_i64 a b = if ltb_ℤ (a -ℤ b) (pos (2 ^ 63)) then passes (a -ℤ b) else panics

-- `parseToken` up to the end of the loop over the lines
unfoldable pub token_of : Os → Text → Checked Token
unfolding ensure assert found is_secure_regular_file is_absolute read_token
token_of os token_path = do
  ensure (is_secure_regular_file (os.lstat token_path))
  assert (is_absolute token_path)
  content ← found (os.open_file token_path)
  found (read_token content)

-- the checks of what the token says; the token's counter
unfoldable pub checked_counter : Os → ℤ → ℤ → Option Text → Token → Checked ℤ
unfolding ensure found eq_ℤ root_ok nonce_ok minus_i64
checked_counter os required_ring max_age_sec expected_nonce t = do
  ring ← found t.ring
  attested ← found t.attested
  ts ← found t.timestamp
  counter ← found t.counter
  ensure attested
  ensure (eq_ℤ ring required_ring)
  ensure (root_ok required_ring t.root_attested)
  ensure (ltb_ℤ (pos 0) max_age_sec)
  ensure (not (ltb_ℤ os.timestamp ts))
  age ← minus_i64 os.timestamp ts
  ensure (not (ltb_ℤ max_age_sec age))
  ensure (nonce_ok expected_nonce t.nonce)
  passes counter

-- the counter in the first line of the replay state, -1 where it is no number or there is no line
unfoldable pub counter_of_line : Option (Option Text) → Checked ℤ
unfolding trim_line parse_int
counter_of_line none = passes (negsuc 0)
counter_of_line (some none) = refuses
counter_of_line (some (some line)) = elim (parse_int (trim_line line)) [
  | none ↦ passes (negsuc 0)
  | some parsed ↦ passes parsed
]

unfoldable pub stored_counter : Os → Text → Replay → Checked ℤ
unfolding ensure assert is_secure_regular_file is_absolute next_line counter_of_line
stored_counter os replay_path replay =
    if is_secure_regular_file replay.status
    then (do
      assert (is_absolute replay_path)
      ensure os.open_state
      counter_of_line (next_line 128 [] replay.content))
    else passes (negsuc 0)

-- up to the replay state being written
unfoldable pub new_counter : Os → Text → ℤ → ℤ → Option Text → Text → Replay → Checked ℤ
unfolding token_of checked_counter ensure assert is_empty is_absolute stored_counter
new_counter os token_path required_ring max_age_sec expected_nonce replay_path replay = do
  t ← token_of os token_path
  counter ← checked_counter os required_ring max_age_sec expected_nonce t
  ensure (not (is_empty replay_path))
  last_counter ← stored_counter os replay_path replay
  ensure (ltb_ℤ last_counter counter)
  assert (is_absolute replay_path)
  ensure os.create_file
  passes counter

-- The file is empty once it is opened; a new one is there with the mode 0600 less the umask.
unfoldable pub status_of : Os → Option Metadata → Option Metadata
status_of os none = some os.new_file
status_of os (some st) = some st

-- the answer of the function, if the process lives on
pub data Answer : Type 0 where
  accepted refused panicked : Answer

unfoldable pub record_counter : Os → Replay → Checked ℤ → Answer × Replay
unfolding status_of counter_line take
record_counter os replay refuses = (refused, replay)
record_counter os replay panics = (panicked, replay)
record_counter os replay (passes counter) =
    let line = counter_line counter in
    let after : Replay = record {
      status = status_of os replay.status;
      content = take os.written line;
    } in
    if ltb os.written (length line) then (refused, after) else (accepted, after)

-- `skv_validate_attestation_token`, whose paths are no null pointers
unfoldable pub answer : Os → Text → ℤ → ℤ → Option Text → Text → Replay → Answer × Replay
unfolding is_empty new_counter record_counter
answer os token_path required_ring max_age_sec expected_nonce replay_path replay =
    if is_empty token_path
    then (refused, replay)
    else if is_empty replay_path
    then (refused, replay)
    else record_counter os replay
        (new_counter os token_path required_ring max_age_sec expected_nonce replay_path replay)
