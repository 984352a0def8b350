-- ===== src/Files/Approvals.antt =====
-- The approvals that `load_hitl_approvals` of skv-analyzer/src/main.rs takes from a file, said without
-- its loop.
use sentinel_kv.Prelude.{
  ◌≡◌, refl, sym, ap, ◌∙◌, Bool, not, ◌&&◌, ◌||◌, some, List, [], ◌∷◌, Text, text, text_beq,
  text_beq_iff, text_eq, contains, add, contains-add, any, trim, starts_with, if◌then◌else◌,
  Bool-cases, inl, inr, arith,
}
use sentinel_kv.Host.{Host, Metadata, ok, context-eq-ok, >>=-eq-ok, ok-injective}
use sentinel_kv.Files.{
  lines, is_approval, approvals_of, ensure_secure_owned_file, load_hitl_approvals,
}
use sentinel_kv.Files.Secure.{IsSecure, ensure_secure_owned_file_iff}

-- not empty and no comment
abbrev pub names_condition : Text → Bool
names_condition x = not (text_beq x []) && not (starts_with x (text "#"))

-- some line of the file is this text but for the white space around it
abbrev pub has_line : Text → Text → Bool
has_line x raw = any (λ line. text_beq (trim line) x) (lines raw)

is_approval-names : (x : Text) → is_approval x ≡ names_condition x
unfolding is_approval starts_with text text_beq
is_approval-names [] = refl
is_approval-names (c ∷ s) = ground arith

approval_added :
    (x t : Text) (out : List Text)
    → contains x (if is_approval t then add t out else out)
      ≡ ((text_beq t x && is_approval x) || contains x out)
approval_added x t out = elim (Bool-cases (text_beq t x)) [
  | inl same ↦
      let e : t ≡ x = (text_beq_iff t x).0 same in
      let approved : is_approval t ≡ is_approval x = ap is_approval e in
      ground (arith, contains-add t x out)
  | inr other ↦ ground (arith, contains-add t x out)
]

approvals_of_lem :
    (x : Text) (l out : List Text)
    → contains x (approvals_of l out)
      ≡ ((is_approval x && any (λ line. text_beq (trim line) x) l) || contains x out)
unfolding approvals_of
approvals_of_lem x [] out = ground arith
approvals_of_lem x (line ∷ l) out = ground (
  arith,
  approvals_of_lem x l (if is_approval (trim line) then add (trim line) out else out),
  approval_added x (trim line) out,
)

approvals_of_all :
    (x : Text) (l : List Text)
    → contains x (approvals_of l []) ≡ (names_condition x && any (λ line. text_beq (trim line) x) l)
unfolding contains
approvals_of_all x l = ground (arith, approvals_of_lem x l [], is_approval-names x)

-- If `load_hitl_approvals` succeeds, its file is secure (as `ensure_secure_owned_file` asks), it was
-- read, and a text is approved exactly if it is not empty, does not begin with `#`, and is one of the
-- lines that were read, but for white space at its ends.
pub load_hitl_approvals_sound :
    (host : Host) (path : Text) (approvals : List Text)
    → load_hitl_approvals host path ≡ ok approvals
    → (meta : Metadata) × (raw : Text) × (host.symlink_metadata path ≡ some meta)
      × IsSecure host meta
      × (host.read_to_string path ≡ some raw)
      × ((x : Text) → contains x approvals ≡ (names_condition x && has_line x raw))
unfolding load_hitl_approvals
load_hitl_approvals_sound host path approvals h =
    let (_, checked, h1) = >>=-eq-ok (ensure_secure_owned_file host path _) _ h in
    let (meta, found, secure) = (ensure_secure_owned_file_iff host path _).0 checked in
    let (raw, read, h2) = context-eq-ok (host.read_to_string path) _ _ h1 in
    (
      meta,
      raw,
      found,
      secure,
      read,
      (λ x. ap (contains x) (sym (ok-injective h2)) ∙ approvals_of_all x (lines raw)),
    )
