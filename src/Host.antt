-- ===== src/Host.antt =====
-- What stands outside skv-analyzer/src/main.rs and is a parameter of the model: the file system, the
-- base64, hex, SHA-256 and Ed25519 libraries, and the attestation bridge that is linked in. A
-- fallible step of the program is a `Result`; its error is the text that `{}` prints of it.
use sentinel_kv.Prelude.{
  ℕ, ◌≡◌, refl, Bool, true, false, Option, none, some, List, Text, if◌then◌else◌,
}
use sentinel_kv.Prelude.Int.{ℤ}

pub data Result {α} (S : Type α) : Type α where
  err : Text → Result S
  ok : S → Result S

-- `?`: an error is handed on at once
infixl 5 ◌>>=◌ ◌>>◌
abbrev pub ◌>>=◌ {α β} : {S : Type α} {T : Type β} → Result S → (S → Result T) → Result T
err message >>= rest = err message
ok value >>= rest = rest value

abbrev pub ◌>>◌ {β} : {T : Type β} → Result (Unit {0}) → Result T → Result T
check >> rest = check >>= λ _. rest

-- `anyhow::bail!` unless the test holds
unfoldable pub ensure : Bool → Text → Result (Unit {0})
ensure holds message = if holds then ok tt else err message

-- `.with_context(|| message)` on a fallible step
unfoldable pub context : {A : Type 0} → Option A → Text → Result A
context none message = err message
context (some a) message = ok a

pub record Metadata : Type 0 where
  pub is_file : Bool
  pub uid : ℕ
  pub mode : ℕ

pub record Host : Type 0 where
  pub symlink_metadata : Text → Option Metadata
  pub read : Text → Option (List ℕ)
  pub read_to_string : Text → Option Text
  -- The steps of writing a file, each of which may fail. Opening gives the permissions that the file
  -- has then: those it had, or of a new file what the umask leaves.
  pub open_file : Text → Option ℕ
  pub set_permissions : Text → ℕ → Bool
  pub write_all : Text → Text → Bool
  pub sync_all : Text → Bool
  -- /proc/self/status, empty where it cannot be read
  pub proc_status : Text
  pub decode_base64 : Text → Option (List ℕ)
  pub hex_encode : List ℕ → Text
  pub sha256 : List ℕ → List ℕ
  -- `VerifyingKey::from_bytes`, and `verify` of a key, a message and a signature
  pub key_is_valid : List ℕ → Bool
  pub verify : List ℕ → List ℕ → List ℕ → Bool
  -- `skv_validate_attestation_token`: token path, ring, maximal age, nonce, replay state path
  pub validate_token : Text → ℤ → ℕ → Text → Text → ℕ

-- Inversion of a successful chain.
-- Behind a step that may fail the run comes to `ok` only if that step did.
pub >>=-eq-ok :
    {S T : Type 0} (step : Result S) (rest : S → Result T) {out : T}
    → (step >>= rest) ≡ ok out
    → (value : S) × (step ≡ ok value) × (rest value ≡ ok out)
>>=-eq-ok (err message) rest done = cc
>>=-eq-ok (ok value) rest done = (value, refl, done)

pub ensure-eq-ok :
    {B : Type 0} (t : Bool) (m : Text) (k : Result B) {b : B}
    → (ensure t m >> k) ≡ ok b
    → (t ≡ true) × (k ≡ ok b)
unfolding ensure
ensure-eq-ok true m k h = (refl, h)
ensure-eq-ok false m k h = cc

pub context-eq-ok :
    {A B : Type 0} (o : Option A) (m : Text) (f : A → Result B) {b : B}
    → (context o m >>= f) ≡ ok b
    → (a : A) × (o ≡ some a) × (f a ≡ ok b)
unfolding context
context-eq-ok (some a) m f h = (a, refl, h)
context-eq-ok none m f h = cc

pub ensure_last : (t : Bool) (m : Text) → ensure t m ≡ ok tt → t ≡ true
unfolding ensure
ensure_last true m h = refl
ensure_last false m h = cc

pub ensure-true : (t : Bool) (m : Text) → t ≡ true → ensure t m ≡ ok tt
unfolding ensure
ensure-true t m h = rw h

pub ok-injective : {A : Type 0} {a b : A} → ok a ≡ ok b → a ≡ b
ok-injective h = cc
