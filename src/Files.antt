-- ===== src/Files.antt =====
-- The file checks of skv-analyzer/src/main.rs: `ensure_secure_owned_file`, `nix_like_euid`,
-- `write_output_file` and `load_hitl_approvals`.
use Prim.Native.Nat.{bit_and}
pub mod Approvals
pub mod Bits
pub mod Secure
use sentinel_kv.Prelude.{
  ℕ, ◌+◌, ◌-◌, ◌*◌, ◌^◌, Bool, true, false, not, ◌&&◌, Option, none, some, List, [], ◌∷◌, ◌++◌,
  Text, text, text_eq, nat_beq, leb, ltb, is_whitespace, trim, starts_with, add, if◌then◌else◌,
}
use sentinel_kv.Host.{Host, Metadata, Result, ok, ◌>>=◌, ◌>>◌, ensure, context}

unfoldable pub push_line : ℕ → List Text → List Text
push_line c [] = (c ∷ []) ∷ []
push_line c (l ∷ ls) = (c ∷ l) ∷ ls

-- `str::lines`: a line ends at a line feed, with a carriage return before it or not, and there is no
-- empty line behind the last one
unfoldable pub lines : Text → List Text
unfolding push_line starts_with
lines [] = []
lines (c ∷ s) =
    let rest = lines s in
    if nat_beq c 10
    then [] ∷ rest
    else if nat_beq c 13 && starts_with s (10 ∷ [])
    then rest
    else push_line c rest

-- `str::split_whitespace`: the words, gathered from the right; the flag tells whether a word is open
unfoldable pub push_word : ℕ → Bool × List Text → Bool × List Text
push_word c (true, w ∷ ws) = (true, (c ∷ w) ∷ ws)
push_word c (_, ws) = (true, (c ∷ []) ∷ ws)

unfoldable pub words : Text → Bool × List Text
unfolding push_word is_whitespace
words [] = (false, [])
words (c ∷ s) = let rest = words s in if is_whitespace c then (false, rest.1) else push_word c rest

unfoldable pub strip_prefix : Text → Text → Option Text
strip_prefix [] s = some s
strip_prefix (p ∷ ps) [] = none
strip_prefix (p ∷ ps) (c ∷ s) = if nat_beq p c then strip_prefix ps s else none

-- `parse::<u32>()`: digits, at most 2^32 - 1, perhaps behind a plus sign
unfoldable pub parse_digits : Text → ℕ → Option ℕ
parse_digits [] n = some n
parse_digits (c ∷ s) n =
    let rest = parse_digits s (n * 10 + (c - 48)) in
    if leb 48 c && leb c 57 && ltb (n * 10 + (c - 48)) (2 ^ 32) then rest else none

unfoldable pub parse_u32 : Text → Option ℕ
unfolding parse_digits
parse_u32 [] = none
parse_u32 (c ∷ []) = parse_digits (c ∷ []) 0
parse_u32 (c ∷ d ∷ s) =
    if nat_beq c b'+' then parse_digits (d ∷ s) 0 else parse_digits (c ∷ d ∷ s) 0

-- the effective uid of a `Uid:` line: the second word
unfoldable pub second_word : List Text → Option Text
second_word (_ ∷ euid ∷ _) = some euid
second_word _ = none

unfoldable pub euid_of_line : Text → Option ℕ
unfolding strip_prefix words second_word parse_u32 text
euid_of_line line = elim (strip_prefix (text "Uid:") line) [
  | none ↦ none
  | some rest ↦ elim (second_word (words rest).1) [ none ↦ none | some w ↦ parse_u32 w ]
]

-- the loop over the lines, with 0 at its end
unfoldable pub euid_of_lines : List Text → ℕ
unfolding euid_of_line
euid_of_lines [] = 0
euid_of_lines (l ∷ ls) = elim (euid_of_line l) [ some v ↦ v | none ↦ euid_of_lines ls ]

unfoldable pub nix_like_euid : Host → ℕ
unfolding euid_of_lines lines
nix_like_euid host = euid_of_lines (lines host.proc_status)

-- `(meta.mode() & 0o022) != 0`
unfoldable pub others_write : ℕ → Bool
others_write mode = not (nat_beq (bit_and mode 0o22) 0)

unfoldable pub ensure_secure_owned_file : Host → Text → Text → Result (Unit {0})
unfolding ensure context
ensure_secure_owned_file host path label = do
  meta ←
      context (host.symlink_metadata path)
        (text "Failed to stat " ++ (label ++ (text ": " ++ path)))
  ensure meta.is_file (label ++ text " must be a regular file")
  ensure (nat_beq meta.uid (nix_like_euid host))
      (label ++ text " must be owned by current effective user")
  ensure (not (others_write meta.mode)) (label ++ text " must not be group/world writable")

-- the checks on an output path that already exists
unfoldable pub check_existing : Host → Option Metadata → Result (Unit {0})
unfolding ensure
check_existing host none = ok tt
check_existing host (some meta) = do
  ensure meta.is_file (text "output path must be a regular file")
  ensure (nat_beq meta.uid (nix_like_euid host))
      (text "output file must be owned by current effective user")
  ensure (not (others_write meta.mode)) (text "output file must not be group/world writable")

-- A file that is being written: its path, its permissions, the permissions it had when bytes were
-- last written to it, and its content.
pub record Written : Type 0 where
  pub path : Text
  pub permissions : ℕ
  pub written_under : Option ℕ
  pub content : Text

-- `OpenOptions::new().create(true).truncate(true).write(true).open(path)`
unfoldable pub open_truncated : Host → Text → Option Written
open_truncated host path = elim (host.open_file path) [
  | none ↦ none
  | some mode ↦
      some (record { path = path; permissions = mode; written_under = none; content = [] })
]

unfoldable pub set_permissions : Host → Written → ℕ → Option Written
set_permissions host file mode =
    if host.set_permissions file.path mode then some (record file { permissions = mode }) else none

unfoldable pub write_all : Host → Written → Text → Option Written
write_all host file content =
    if host.write_all file.path content
    then some
        (record file { written_under = some file.permissions; content = file.content ++ content })
    else none

unfoldable pub write_output_file : Host → Text → Text → Result Written
unfolding ensure check_existing context open_truncated set_permissions write_all
write_output_file host path content = do
  check_existing host (host.symlink_metadata path)
  opened ← context (open_truncated host path) (text "Failed to open output file: " ++ path)
  restricted ←
      context (set_permissions host opened 0o600)
        (text "Failed to set secure permissions on " ++ path)
  written ←
      context (write_all host restricted content) (text "Failed writing output file: " ++ path)
  ensure (host.sync_all path) (text "Failed syncing output file: " ++ path)
  ok written

-- a line that holds an approval
unfoldable pub is_approval : Text → Bool
is_approval [] = false
is_approval (c ∷ s) = not (nat_beq c b'#')

unfoldable pub approvals_of : List Text → List Text → List Text
unfolding is_approval
approvals_of [] out = out
approvals_of (line ∷ rest) out =
    let trimmed = trim line in
    approvals_of rest (if is_approval trimmed then add trimmed out else out)

unfoldable pub load_hitl_approvals : Host → Text → Result (List Text)
unfolding approvals_of lines context
load_hitl_approvals host path = do
  ensure_secure_owned_file host path (text "HITL approvals file")
  raw ← context (host.read_to_string path) (text "Failed to read HITL approvals file: " ++ path)
  ok (approvals_of (lines raw) [])
