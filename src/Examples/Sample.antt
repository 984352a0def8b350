-- ===== src/Examples/Sample.antt =====
-- A driver that allocates 16 bytes, stores into them and frees them; a solver that computes; a host.
use sentinel_kv.Prelude.{
  ℕ, ◌≡◌, refl, Bool, true, false, Option, none, some, List, [], ◌∷◌, Text, text, text_beq,
  replicate, if◌then◌else◌,
}
use sentinel_kv.Ir.{
  number, name, Ty, integer_type, pointer_type, int, global_reference, Operand, local_operand,
  constant_operand, Target, operand, Instruction, call, store, Module,
}
use sentinel_kv.Policy.{off, require, conservative, verify}
use sentinel_kv.Gate.{HitlGate, Formula, holds, SatResult, sat, unsat, IsSound}
use sentinel_kv.Analyzer.Run.{Setup}
use sentinel_kv.Host.{Host}
use sentinel_kv.Ring.{Attestation}

-- a solver that evaluates its question
unfoldable pub exact : Formula → SatResult
unfolding holds
exact p = if holds p then sat else unsat

pub exact-IsSound : IsSound exact
unfolding exact
exact-IsSound = record {
  sat_holds = λ p h. sat_case (holds p) h;
  unsat_fails = λ p h. unsat_case (holds p) h;
}
  where
    sat_case : (b : Bool) → (if b then sat else unsat) ≡ sat → b ≡ true
    sat_case true h = refl
    sat_case false h = cc

    unsat_case : (b : Bool) → (if b then sat else unsat) ≡ unsat → b ≡ false
    unsat_case true h = cc
    unsat_case false h = refl

abbrev pub i32 : Ty
i32 = integer_type 32

abbrev pub const : ℕ → Operand
const n = constant_operand (int 64 n)

abbrev pub pointer : ℕ → Operand
pointer n = local_operand (number n) pointer_type

abbrev pub callee : Text → Target
callee s = operand (constant_operand (global_reference (name s)))

unfoldable pub malloc_16 : Instruction
unfolding text
malloc_16 = call (record {
  function = callee (text "kmalloc");
  arguments = const 16 ∷ const 0 ∷ [];
  dest = some (number 0);
})

unfoldable pub free_0 : Instruction
unfolding text
free_0 = call (record { function = callee (text "kfree"); arguments = pointer 0 ∷ []; dest = none })

abbrev pub store_7 : Instruction
store_7 = store (pointer 0) (constant_operand (int 32 7))

unfoldable pub type_of : Operand → Ty
type_of (local_operand n ty) = ty
type_of (constant_operand (int bits value)) = integer_type bits
type_of _ = pointer_type

unfoldable pub driver : List Instruction → Module
unfolding text type_of
driver l = record {
  functions = record { name = text "probe"; basic_blocks = record { instrs = l } ∷ [] } ∷ [];
  type_of = type_of;
  named_struct_def = λ n. none;
}

unfoldable pub safe_driver : Module
unfolding driver malloc_16 free_0
safe_driver = driver (malloc_16 ∷ store_7 ∷ free_0 ∷ [])

unfoldable pub setup : Setup
unfolding exact
setup = record {
  inline_asm_policy = conservative;
  dma_policy = verify;
  solver = exact;
  iteration = λ ids. ids;
  type_depth = 8;
}

abbrev pub open_gate : HitlGate
open_gate = record {
  mode = off;
  approved = [];
  approved_classes = [];
  seen = [];
  blocked = [];
  seen_classes = [];
  blocked_classes = [];
}

-- stores of 4 bytes are approved as a class
unfoldable pub class_gate : HitlGate
unfolding text
class_gate = record open_gate { mode = require; approved_classes = text "class::store::size4" ∷ [] }

unfoldable pub fingerprint : Text
fingerprint = replicate 64 97

unfoldable pub decode : Text → Option (List ℕ)
unfolding text text_beq
decode s = if text_beq s (text "key") then some (replicate 32 1) else some (replicate 64 2)

unfoldable pub host : Host
unfolding fingerprint decode
host = record {
  symlink_metadata = λ path. some (record { is_file = true; uid = 0; mode = 0o600 });
  read = λ path. some path;
  read_to_string = λ path. some path;
  open_file = λ path. some 0o644;
  set_permissions = λ path mode. true;
  write_all = λ path content. true;
  sync_all = λ path. true;
  proc_status = [];
  decode_base64 = decode;
  hex_encode = λ bytes. fingerprint;
  sha256 = λ bytes. bytes;
  key_is_valid = λ key. true;
  verify = λ key message sig. true;
  validate_token = λ path ring age nonce replay. 1;
}

unfoldable pub attestation : Attestation
unfolding text fingerprint
attestation = record {
  token = some (text "token");
  max_age_sec = 300;
  nonce = some (text "n1");
  replay_state = some (text "replay");
  pubkey = some (text "key");
  signature = some (text "sig");
  key_fingerprint = some fingerprint;
  ring2_root_pubkey = some (text "key");
  ring2_root_signature = some (text "sig");
  ring2_root_key_fingerprint = some fingerprint;
}
