-- ===== src/Examples/UnitTests.antt =====
-- The unit tests of skv-analyzer/src/main.rs (its module `tests`), on the model.
use sentinel_kv.Prelude.{
  some, ◌≡◌, refl, true, false, [], ◌∷◌, Text, text, text_beq, contains, add, trim, trim_start,
  is_whitespace, starts_with,
}
use sentinel_kv.Policy.{pass, require, is_fail}
use sentinel_kv.Host.{ok, ensure, context}
use sentinel_kv.Gate.{HitlGate, should_run_solver, enforce_hitl_policy}
use sentinel_kv.Files.{
  push_line, lines, others_write, nix_like_euid, euid_of_lines, ensure_secure_owned_file,
  approvals_of, is_approval, load_hitl_approvals, write_output_file, check_existing, open_truncated,
  set_permissions, write_all,
}
use sentinel_kv.Examples.Sample.{host}

abbrev empty_gate : HitlGate
empty_gate = record {
  mode = require;
  approved = [];
  approved_classes = [];
  seen = [];
  blocked = [];
  seen_classes = [];
  blocked_classes = [];
}

abbrev load_1 : Text
load_1 = text "f::bb0::i1::load"

abbrev size4 : Text
size4 = text "class::load::size4"

hitl_gate_blocks_unapproved_vc : should_run_solver load_1 size4 empty_gate ≡ (
  false,
  record empty_gate {
    seen = load_1 ∷ [];
    blocked = load_1 ∷ [];
    seen_classes = size4 ∷ [];
    blocked_classes = size4 ∷ [];
  },
)
unfolding should_run_solver contains
hitl_gate_blocks_unapproved_vc = refl

hitl_gate_allows_approved_vc :
    (let g = record empty_gate { approved = load_1 ∷ [] } in
      should_run_solver load_1 size4 g
      ≡ (true, record g { seen = load_1 ∷ []; seen_classes = size4 ∷ [] }))
unfolding should_run_solver text text_beq contains
hitl_gate_allows_approved_vc = refl

hitl_gate_allows_approved_class :
    (let g = record empty_gate { approved_classes = size4 ∷ [] } in
      let load_7 = text "f::bb0::i7::load" in
      should_run_solver load_7 size4 g
      ≡ (true, record g { seen = load_7 ∷ []; seen_classes = size4 ∷ [] }))
unfolding should_run_solver text text_beq contains
hitl_gate_allows_approved_class = refl

enforce_hitl_policy-is_fail_closed : is_fail (enforce_hitl_policy pass require 2) ≡ true
unfolding enforce_hitl_policy
enforce_hitl_policy-is_fail_closed = refl

-- the path of a file of `host` is its content
load_hitl_approvals_parses_lines_comments :
    load_hitl_approvals host (text "# comment\n\nf::bb0::i1::load\n  f::bb0::i2::store  \n")
    ≡ ok (text "f::bb0::i1::load" ∷ text "f::bb0::i2::store" ∷ [])
unfolding host text text_beq contains add trim trim_start is_whitespace starts_with ensure context
    push_line lines others_write nix_like_euid euid_of_lines ensure_secure_owned_file approvals_of
    is_approval load_hitl_approvals
load_hitl_approvals_parses_lines_comments = refl

write_output_file_sets_secure_permissions :
    (let path = text "skv-output-secure.json" in
      let content = text "{\"ok\":true}\n" in
      write_output_file host path content
      ≡ ok (record {
        path = path;
        permissions = 0o600;
        written_under = some 0o600;
        content = content;
      }))
unfolding host ensure check_existing others_write nix_like_euid euid_of_lines lines context
    open_truncated set_permissions write_all write_output_file
write_output_file_sets_secure_permissions = refl
