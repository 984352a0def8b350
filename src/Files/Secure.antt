-- ===== src/Files/Secure.antt =====
-- What the file checks promise.
use sentinel_kv.Prelude.{
  ◌≡◌, ◌↔◌, ◌∙◌, ◌++◌, ◌/◌, ◌%◌, ℕ, refl, sym, Bool, true, false, not, Option, none, some, [], Text,
  nat_beq, nat_beq_iff, some-injective, if◌then◌else◌, arith,
}
use sentinel_kv.Host.{
  Host, Metadata, Result, ok, ◌>>◌, ensure, context, context-eq-ok, ensure-eq-ok, ensure_last,
  >>=-eq-ok, ok-injective,
}
use sentinel_kv.Files.{
  nix_like_euid, others_write, ensure_secure_owned_file, check_existing, write_output_file, Written,
  open_truncated, set_permissions, write_all,
}
use sentinel_kv.Files.Bits.{others_write-bits}

-- A regular file of the user that `nix_like_euid` finds, with no bit set that lets its group (bit 4 of
-- the mode) or others (bit 1) write it.
pub record IsSecure (host : Host) (meta : Metadata) : Type 0 where
  pub regular : meta.is_file ≡ true
  pub owned : meta.uid ≡ nix_like_euid host
  pub group_cannot_write : meta.mode / 16 % 2 ≡ 0
  pub others_cannot_write : meta.mode / 2 % 2 ≡ 0

not-true : (b : Bool) → not b ≡ true → b ≡ false
not-true b h = ground arith

module _ (host : Host) (meta : Metadata) (a b c : Text) where
  -- the three tests, one behind the other
  three_tests : Result (Unit {0})
  three_tests = do
    ensure meta.is_file a
    ensure (nat_beq meta.uid (nix_like_euid host)) b
    ensure (not (others_write meta.mode)) c

  IsSecure-tests : three_tests ≡ ok tt → IsSecure host meta
  unfolding three_tests
  IsSecure-tests h =
      let (regular, h') = ensure-eq-ok meta.is_file a _ h in
      let (owned, h'') = ensure-eq-ok (nat_beq meta.uid (nix_like_euid host)) b _ h' in
      let bits =
        (others_write-bits meta.mode).0
          (not-true _ (ensure_last (not (others_write meta.mode)) c h'')) in
      record {
        regular = regular;
        owned = (nat_beq_iff _ _).0 owned;
        group_cannot_write = bits.0;
        others_cannot_write = bits.1;
      }

  tests-IsSecure : IsSecure host meta → three_tests ≡ ok tt
  unfolding three_tests ensure
  tests-IsSecure s =
      let private = (others_write-bits meta.mode).1 (s.group_cannot_write, s.others_cannot_write) in
      rw (s.regular, (nat_beq_iff _ _).1 s.owned, private)

-- `ensure_secure_owned_file` succeeds exactly on a path that is, with no symbolic link followed, a
-- regular file whose owner is the uid that `nix_like_euid` finds (the effective one of
-- /proc/self/status, and 0 where that gives none) and in whose mode neither bit 4, by which the group
-- may write, nor bit 1, by which others may, is set.
pub ensure_secure_owned_file_iff :
    (host : Host) (path label : Text)
    → (ensure_secure_owned_file host path label ≡ ok tt)
      ↔ ((meta : Metadata) × (host.symlink_metadata path ≡ some meta) × IsSecure host meta)
unfolding ensure_secure_owned_file three_tests
ensure_secure_owned_file_iff host path label = (
  (λ h.
      let (meta, found, rest) = context-eq-ok (host.symlink_metadata path) _ _ h in
      (meta, found, IsSecure-tests host meta _ _ _ rest)),
  (λ (meta, found, s). unfold context in rw found (tests-IsSecure host meta _ _ _ s)),
)

-- an existing output file must be secure
abbrev pub IsAbsentOrSecure : Host → Option Metadata → Type 0
IsAbsentOrSecure host none = Unit
IsAbsentOrSecure host (some meta) = IsSecure host meta

check_existing-secure :
    (host : Host) (o : Option Metadata) → check_existing host o ≡ ok tt → IsAbsentOrSecure host o
unfolding check_existing three_tests
check_existing-secure host none h = tt
check_existing-secure host (some meta) h = IsSecure-tests host meta _ _ _ h

open_truncated-eq-some :
    (host : Host) (path : Text) (file : Written)
    → open_truncated host path ≡ some file
    → (mode : ℕ) × (file
        ≡ record { path = path; permissions = mode; written_under = none; content = [] })
unfolding open_truncated
open_truncated-eq-some host path file h = go (host.open_file path) h
  where
    go :
        (o : Option ℕ)
        → ◌≡◌ {A = Option Written}
            (elim o [
              | none ↦ none
              | some mode ↦
                  some
                    (record { path = path; permissions = mode; written_under = none; content = [] })
            ])
            (some file)
        → (mode : ℕ) × (file
            ≡ record { path = path; permissions = mode; written_under = none; content = [] })
    go none e = cc
    go (some mode) e = (mode, sym (some-injective e))

-- a step that succeeds only where its test does
guarded-eq-some :
    {A : Type 0} (b : Bool) (a : A) {out : A}
    → (if b then some a else none) ≡ some out
    → (b ≡ true) × (out ≡ a)
guarded-eq-some true a h = (refl, sym (some-injective h))
guarded-eq-some false a h = cc

set_permissions-eq-some :
    (host : Host) (file out : Written) (mode : ℕ)
    → set_permissions host file mode ≡ some out
    → (host.set_permissions file.path mode ≡ true) × (out ≡ record file { permissions = mode })
unfolding set_permissions
set_permissions-eq-some host file out mode h =
    guarded-eq-some (host.set_permissions file.path mode) _ h

write_all-eq-some :
    (host : Host) (file out : Written) (content : Text)
    → write_all host file content ≡ some out
    → (host.write_all file.path content ≡ true)
      × (out ≡ record file {
        written_under = some file.permissions;
        content = file.content ++ content;
      })
unfolding write_all
write_all-eq-some host file out content h = guarded-eq-some (host.write_all file.path content) _ h

-- If `write_output_file` succeeds, there was no metadata of the path or it was a regular file of the
-- user that `nix_like_euid` finds, writable by neither group nor others; every step of the write
-- succeeded; whatever the permissions were when the file was opened, they were 0600 when the content
-- was written and are 0600 at the end, and the file holds the content and nothing else.
pub write_output_file-secure :
    (host : Host) (path content : Text) (w : Written)
    → write_output_file host path content ≡ ok w
    → IsAbsentOrSecure host (host.symlink_metadata path)
      × (host.set_permissions path 0o600 ≡ true)
      × (host.write_all path content ≡ true)
      × (host.sync_all path ≡ true)
      × (w ≡ record {
        path = path;
        permissions = 0o600;
        written_under = some 0o600;
        content = content;
      })
unfolding write_output_file
write_output_file-secure host path content w h =
    let (_, existing, h1) = >>=-eq-ok (check_existing host (host.symlink_metadata path)) _ h in
    let (opened, e1, h2) = context-eq-ok (open_truncated host path) _ _ h1 in
    let (restricted, e2, h3) = context-eq-ok (set_permissions host opened 0o600) _ _ h2 in
    let (written, e3, h4) = context-eq-ok (write_all host restricted content) _ _ h3 in
    let (synced, h5) = ensure-eq-ok (host.sync_all path) _ _ h4 in
    let (mode, o) = open_truncated-eq-some host path opened e1 in
    let (private, r) = set_permissions-eq-some host opened restricted 0o600 e2 in
    let (stored, t) = write_all-eq-some host restricted written content e3 in
    (
      check_existing-secure host _ existing,
      rw (o) at private,
      rw (r, o) at stored,
      synced,
      sym (ok-injective h5) ∙ rw (r, o) at t,
    )
