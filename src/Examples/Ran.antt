-- ===== src/Examples/Ran.antt =====
-- A whole run as one definition that computes, and a command line with its surroundings.
use sentinel_kv.CommandLine.{lfsc, Args, parsed, Env, proof_label}
use sentinel_kv.Prelude.{
  ℕ, true, Option, none, some, List, [], text, decimal, decimal_digits, replace, trim, trim_start,
  to_lower, text_beq, is_whitespace,
}
use sentinel_kv.Policy.{ring_m2, hitl_label, require, conservative, verify}
use sentinel_kv.Host.{context, ensure}
use sentinel_kv.Files.{
  write_output_file, check_existing, open_truncated, set_permissions, write_all,
  load_hitl_approvals, is_approval, approvals_of, lines, push_line,
}
use sentinel_kv.Report.{
  auto, resolved, escaped_message, quoted_or_null, to_json, status_of, code_of, message_of,
  counts_of, no_counts, verdict_from_result,
}
use sentinel_kv.Emission.{
  text_leb, insert_sorted, sort, dedup_from, dedup, sorted_set, escaped_item, array_items,
  json_array, emission, in_context, emit_hitl_vcs,
}
use sentinel_kv.Console.{Effect, and_then, println_all, record_write, writing, if_some}
use sentinel_kv.Tui.{
  Input, run_tui, turn, prompt, screen, show_choice, choice_of, is_quit, after_show, pause_tui,
  next_input, doctor_status,
}
use sentinel_kv.Catalog.{catalog_lines, print_feature_catalog, catalog_items, feature_catalog_json}
use sentinel_kv.Doctor.{
  required_checks, optional_checks, all_passed, bool_text, checks_json, doctor_json, check_lines,
  doctor_lines, run_doctor, integer_text, ring_num, is_ring_m2, token_template_json, token_template,
  print_token_template,
}
use sentinel_kv.Program.{
  tag_of, show_verdict, write_verdict, proof_content, write_proof, verdict_of, run_attest_check,
  the_path, the_module, has_source, approvals_from, class_approvals_from, new_gate, setup_of,
  conclude, run_analysis, run_command, run, exit_of, main,
}
use sentinel_kv.Examples.Sample.{host, attestation, exact, safe_driver}

unfoldable pub ran : Env → Args → ℕ → List Input → Option (ℕ × List Effect)
unfolding text decimal decimal_digits replace trim trim_start to_lower text_beq is_whitespace
    hitl_label context ensure write_output_file check_existing open_truncated set_permissions
    write_all load_hitl_approvals is_approval approvals_of lines push_line resolved escaped_message
    quoted_or_null to_json status_of code_of message_of counts_of no_counts verdict_from_result
    text_leb insert_sorted sort dedup_from dedup sorted_set escaped_item array_items json_array
    emission in_context emit_hitl_vcs and_then println_all record_write writing if_some run_tui turn
    prompt screen show_choice choice_of is_quit after_show pause_tui next_input doctor_status
    catalog_lines print_feature_catalog catalog_items feature_catalog_json required_checks
    optional_checks all_passed bool_text checks_json doctor_json check_lines doctor_lines run_doctor
    integer_text ring_num is_ring_m2 token_template_json token_template print_token_template
    proof_label tag_of show_verdict write_verdict proof_content write_proof verdict_of
    run_attest_check the_path the_module has_source approvals_from class_approvals_from new_gate
    setup_of conclude run_analysis run_command run exit_of main
ran = main

-- a host that never changes, and a parser that gives the sample driver
unfoldable pub env : Env
unfolding text host exact safe_driver
env = record {
  arch = text "x86_64";
  is_linux = true;
  zig_ok = true;
  world = λ log. host;
  from_ir_path = λ path log. parsed safe_driver;
  solver = exact;
  iteration = λ ids. ids;
  type_depth = 8;
}

-- Ring -2 and `--hitl-mode require`; a file of this host holds its own name.
unfoldable pub args : Args
unfolding text attestation
args = record {
  ir_path = some (text "driver.ll");
  ring = ring_m2;
  attestation = attestation;
  json = true;
  verdict_out = some (text "verdict.json");
  hitl_mode = require;
  hitl_approvals = none;
  hitl_class_approvals = some (text "class::store::size4");
  emit_vcs = some (text "vcs.json");
  runtime_fallback = auto;
  proof_format = lfsc;
  emit_proof = some (text "proof.txt");
  inline_asm_policy = conservative;
  dma_policy = verify;
  command = none;
}

abbrev pub effects_of : Option (ℕ × List Effect) → List Effect
effects_of none = []
effects_of (some (c, log)) = log
