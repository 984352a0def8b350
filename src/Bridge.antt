-- ===== src/Bridge.antt =====
-- `skv_validate_attestation_token` of skv-analyzer/src/c/attestation_bridge.c, the default
-- implementation of the attestation bridge. The replay state is passed as the bytes of its file.
pub mod Numbers
pub mod Parse
pub mod Accepted
pub mod Printed
pub mod Replay
pub mod Presents
pub mod Refines
pub mod Chain
pub mod Once
pub mod Faults
use sentinel_kv.Prelude.{
  ℕ, zero, suc, ◌^◌, ◌+◌, Bool, true, false, not, ◌&&◌, ◌||◌, Option, none, some, is_some, List, [],
  ◌∷◌, ◌++◌, Text, text, text_beq, length, ltb, leb, nat_beq, if◌then◌else◌, ◌>>=◌,
}
use sentinel_kv.Prelude.Int.{ℤ, pos, negsuc, ◌-ℤ◌, ltb_ℤ}
use sentinel_kv.Host.{Metadata}
use sentinel_kv.Files.{others_write}
use sentinel_kv.Doctor.{integer_text}
use sentinel_kv.Bridge.Numbers.{strtoll, wrap}
use sentinel_kv.Bridge.Parse.{Token, read_token}

-- What the system calls of one call of the function give; the last ones are on the open replay state.
pub record System : Type 0 where
  pub lstat : Text → Option Metadata
  pub geteuid : ℕ
  pub fopen : Text → Option Text
  pub time : Option ℤ
  pub open_state : Text → Bool
  pub lock : Bool
  pub fstat : Option Metadata
  pub pread : Bool
  pub ftruncate : Bool
  pub lseek : Bool
  -- how many bytes `write` writes
  pub written : ℕ
  pub fsync : Bool
  pub chmod : Bool

-- an early `return 0`
unfoldable pub require : Bool → Option (Unit {0})
require holds = if holds then some tt else none

infixl 5 ◌>>◌
abbrev pub ◌>>◌ : {B : Type 0} → Option (Unit {0}) → Option B → Option B
check >> rest = check >>= λ _. rest

-- a regular file of the effective user that nobody else may write
unfoldable pub is_secure : ℕ → Metadata → Bool
unfolding others_write
is_secure euid st = (st.is_file && nat_beq st.uid euid) && not (others_write st.mode)

unfoldable pub is_empty : Text → Bool
is_empty [] = true
is_empty (c ∷ s) = false

-- up to the closing of the token
unfoldable pub read_token_file : System → Text → Option Token
unfolding is_empty is_secure require read_token
read_token_file sys token_path = do
  require (not (is_empty token_path))
  st ← sys.lstat token_path
  require (is_secure sys.geteuid st)
  content ← sys.fopen token_path
  some (read_token content)

unfoldable pub eq_ℤ : ℤ → ℤ → Bool
eq_ℤ (pos m) (pos n) = nat_beq m n
eq_ℤ (pos m) (negsuc n) = false
eq_ℤ (negsuc m) (pos n) = false
eq_ℤ (negsuc m) (negsuc n) = nat_beq m n

-- the root attestation, which ring -2 needs
unfoldable pub root_ok : ℤ → Option Bool → Bool
unfolding eq_ℤ
root_ok required_ring root =
    if eq_ℤ required_ring (negsuc 1) then elim root [ none ↦ false | some b ↦ b ] else true

unfoldable pub nonce_ok : Option Text → Option Text → Bool
unfolding text_beq
nonce_ok none found = true
nonce_ok (some expected) none = false
nonce_ok (some expected) (some nonce) = text_beq expected nonce

-- The checks of what the token says, up to the replay state; the token's counter. The difference of
-- the times is a long long, with the wrap that compilers give it.
unfoldable pub check_fields : System → ℤ → ℤ → Option Text → Token → Option ℤ
unfolding require eq_ℤ root_ok nonce_ok wrap ◌-ℤ◌
check_fields sys required_ring max_age_sec expected_nonce t = do
  ring ← t.ring
  attested ← t.attested
  ts ← t.timestamp
  counter ← t.counter
  require attested
  require (eq_ℤ ring required_ring)
  require (root_ok required_ring t.root_attested)
  require (ltb_ℤ (pos 0) max_age_sec)
  now ← sys.time
  require (not (ltb_ℤ now ts))
  require (not (ltb_ℤ max_age_sec (wrap (2 ^ 63) (now -ℤ ts))))
  require (nonce_ok expected_nonce t.nonce)
  some counter

unfoldable pub take : ℕ → Text → Text
take zero s = []
take (suc n) [] = []
take (suc n) (c ∷ s) = c ∷ take n s

-- what a C string holds of its buffer
unfoldable pub c_string : Text → Text
c_string [] = []
c_string (c ∷ s) = let rest = c_string s in if nat_beq c 0 then [] else c ∷ rest

-- the counter in the replay state, -1 where there is none or it is not read
unfoldable pub last_counter : Bool → Text → ℤ
unfolding strtoll take c_string
last_counter read replay =
    if read
    then elim (strtoll (c_string (take 127 replay))) [ none ↦ negsuc 0 | some parsed ↦ parsed ]
    else negsuc 0

-- the checks of the replay state before it is written
unfoldable pub check_replay : System → Text → ℤ → Text → Option (Unit {0})
unfolding is_empty require is_secure last_counter
check_replay sys replay_path counter replay = do
  require (not (is_empty replay_path))
  require (sys.open_state replay_path)
  require sys.lock
  st ← sys.fstat
  require (is_secure sys.geteuid st)
  require (ltb_ℤ (last_counter sys.pread replay) counter)

-- `"%lld\n"`
unfoldable pub counter_line : ℤ → Text
unfolding integer_text
counter_line counter = integer_text counter ++ b'\n' ∷ []

-- the new replay state in place of the old one: what is returned, and the file as it is then
unfoldable pub write_counter : System → ℤ → Text → ℕ × Text
unfolding counter_line take
write_counter sys counter replay =
    let out = counter_line counter in
    if not sys.ftruncate
    then (0, replay)
    else if not sys.lseek || leb 128 (length out)
    then (0, [])
    else if not (nat_beq sys.written (length out))
    then (0, take sys.written out)
    else if not (sys.fsync && sys.chmod)
    then (0, out)
    else (1, out)

unfoldable pub advance : System → Text → Text → Option ℤ → ℕ × Text
unfolding check_replay write_counter
advance sys replay_path replay none = (0, replay)
advance sys replay_path replay (some counter) = elim (check_replay sys replay_path counter replay) [
  | none ↦ (0, replay)
  | some _ ↦ write_counter sys counter replay
]

-- what is returned, and the replay state behind the call
unfoldable pub validate_attestation_token :
    System → Text → ℤ → ℤ → Option Text → Text → Text → ℕ × Text
unfolding read_token_file check_fields advance
validate_attestation_token sys token_path required_ring max_age_sec expected_nonce replay_path
      replay =
    advance sys replay_path replay (do
      t ← read_token_file sys token_path
      check_fields sys required_ring max_age_sec expected_nonce t)
