-- ===== src/Examples/Decided.antt =====
-- The decision of the rings as one definition that computes: it unfolds all that a decision uses.
use sentinel_kv.Prelude.{
  all, text, text_beq, starts_with, is_whitespace, trim_start, trim, len_utf8, len, to_lower,
  contains,
}
use sentinel_kv.Policy.{RingMode, AnalysisResult, ring_label, token_ring}
use sentinel_kv.Host.{Host, ensure, context}
use sentinel_kv.Files.{
  push_line, lines, push_word, words, strip_prefix, parse_digits, parse_u32, second_word,
  euid_of_line, euid_of_lines, nix_like_euid, others_write, ensure_secure_owned_file,
}
use sentinel_kv.Signature.{is_hex_digit, normalize_fingerprint, verify_attestation_signature}
use sentinel_kv.Ring.{
  Attestation, Decision, demand, insist, signed, has_nul, check_signature, check_root, check_token,
  promote, failed, decide_signed, decide, apply_for, apply_ring_policy,
}

unfoldable pub decided : Host → AnalysisResult → RingMode → Attestation → Decision
unfolding all text text_beq starts_with is_whitespace trim_start trim len_utf8 len to_lower contains
    ring_label token_ring ensure context push_line lines push_word words strip_prefix parse_digits
    parse_u32 second_word euid_of_line euid_of_lines nix_like_euid others_write
    ensure_secure_owned_file is_hex_digit normalize_fingerprint verify_attestation_signature demand
    insist signed has_nul check_signature check_root check_token promote failed decide_signed decide
    apply_for apply_ring_policy
decided = apply_ring_policy
