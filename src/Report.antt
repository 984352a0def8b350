-- ===== src/Report.antt =====
-- The verdict and its JSON (skv-analyzer/src/main.rs): `Verdict`, `to_json`, `verdict_from_result`,
-- and the runtime fallback policy that it names.
pub mod Valid
use sentinel_kv.Prelude.{
  ℕ, Bool, Option, none, some, List, [], ◌∷◌, ◌++◌, Text, text, text_beq, decimal, replace,
  if◌then◌else◌,
}
use sentinel_kv.Policy.{AnalysisResult, pass, fail, unknown}
use sentinel_kv.Analyzer.Run.{AnalysisOutcome}

pub data RuntimeFallbackPolicy : Type 0 where
  auto arm_mte integri_tag software_targeted : RuntimeFallbackPolicy

-- `RuntimeFallbackPolicy::resolved`, with the target architecture of the build
unfoldable pub resolved : Text → RuntimeFallbackPolicy → Text
unfolding text
resolved arch auto =
    if text_beq arch (text "aarch64")
    then text "arm-mte"
    else if text_beq arch (text "x86_64")
    then text "integritag"
    else text "software-targeted"
resolved arch arm_mte = text "arm-mte"
resolved arch integri_tag = text "integritag"
resolved arch software_targeted = text "software-targeted"

-- The code is one of 0, 10 and 20; the source's type is i32.
pub record Verdict : Type 0 where
  pub status : Text
  pub code : ℕ
  pub message : Text
  pub key_fingerprint : Option Text
  pub token_sha256 : Option Text
  pub runtime_fallback : Text
  pub hitl_mode : Text
  pub hitl_seen_vcs : ℕ
  pub hitl_blocked_vcs : ℕ
  pub hitl_seen_classes : ℕ
  pub hitl_blocked_classes : ℕ
  pub inline_asm_vcs : ℕ
  pub dma_vcs : ℕ
  pub irq_race_vcs : ℕ

-- the three replacements on the message, in their order
unfoldable pub escaped_message : Text → Text
unfolding replace
escaped_message message =
    replace b'\n' (b'\\' ∷ b'n' ∷ [])
      (replace b'"' (b'\\' ∷ b'"' ∷ []) (replace b'\\' (b'\\' ∷ b'\\' ∷ []) message))

-- `.map(|s| format!("\"{}\"", s)).unwrap_or_else(|| "null".to_string())`
unfoldable pub quoted_or_null : Option Text → Text
unfolding text
quoted_or_null none = text "null"
quoted_or_null (some s) = b'"' ∷ (s ++ b'"' ∷ [])

unfoldable pub to_json : Verdict → Text
unfolding text escaped_message quoted_or_null
to_json v =
    text "{\"status\":\""
    ++ (v.status
        ++ (text "\",\"code\":"
            ++ (decimal v.code
                ++ (text ",\"message\":\""
                    ++ (escaped_message v.message
                        ++ (text "\",\"key_fingerprint\":"
                            ++ (quoted_or_null v.key_fingerprint
                                ++ (text ",\"token_sha256\":"
                                    ++ (quoted_or_null v.token_sha256
                                        ++ (text ",\"runtime_fallback\":\""
                                            ++ (v.runtime_fallback
                                                ++ (text "\",\"hitl_mode\":\""
                                                    ++ (v.hitl_mode
                                                        ++ (text "\",\"hitl_seen_vcs\":"
                                                            ++ (decimal v.hitl_seen_vcs
                                                            ++ (text ",\"hitl_blocked_vcs\":"
                                                            ++ (decimal v.hitl_blocked_vcs
                                                            ++ (text ",\"hitl_seen_classes\":"
                                                            ++ (decimal v.hitl_seen_classes
                                                            ++ (text ",\"hitl_blocked_classes\":"
                                                            ++ (decimal v.hitl_blocked_classes
                                                            ++ (text ",\"inline_asm_vcs\":"
                                                            ++ (decimal v.inline_asm_vcs
                                                            ++ (text ",\"dma_vcs\":"
                                                            ++ (decimal v.dma_vcs
                                                            ++ (text ",\"irq_race_vcs\":"
                                                            ++ (decimal v.irq_race_vcs
                                                            ++ text "}")))))))))))))))))))))))))))

-- the status, the code and the message of a result
unfoldable pub status_of : AnalysisResult → Text
unfolding text
status_of pass = text "pass"
status_of (fail msg) = text "fail"
status_of (unknown reason) = text "unknown"

unfoldable pub code_of : AnalysisResult → ℕ
code_of pass = 0
code_of (fail msg) = 10
code_of (unknown reason) = 20

unfoldable pub message_of : AnalysisResult → Text
unfolding text
message_of pass = text "Proved safe for all checked accesses."
message_of (fail msg) = msg
message_of (unknown reason) = reason

-- the counts that a verdict takes over from the analysis
pub record Counts : Type 0 where
  pub hitl_seen_vcs : ℕ
  pub hitl_blocked_vcs : ℕ
  pub hitl_seen_classes : ℕ
  pub hitl_blocked_classes : ℕ
  pub inline_asm_vcs : ℕ
  pub dma_vcs : ℕ
  pub irq_race_vcs : ℕ

unfoldable pub counts_of : AnalysisOutcome → Counts
counts_of o = record {
  hitl_seen_vcs = o.hitl_seen_vcs;
  hitl_blocked_vcs = o.hitl_blocked_vcs;
  hitl_seen_classes = o.hitl_seen_classes;
  hitl_blocked_classes = o.hitl_blocked_classes;
  inline_asm_vcs = o.inline_asm_vcs;
  dma_vcs = o.dma_vcs;
  irq_race_vcs = o.irq_race_vcs;
}

unfoldable pub no_counts : Counts
no_counts = record {
  hitl_seen_vcs = 0;
  hitl_blocked_vcs = 0;
  hitl_seen_classes = 0;
  hitl_blocked_classes = 0;
  inline_asm_vcs = 0;
  dma_vcs = 0;
  irq_race_vcs = 0;
}

unfoldable pub verdict_from_result :
    AnalysisResult → Option Text → Option Text → Text → Text → Counts → Verdict
unfolding status_of code_of message_of
verdict_from_result result key_fingerprint token_sha256 runtime_fallback hitl_mode c = record {
  status = status_of result;
  code = code_of result;
  message = message_of result;
  key_fingerprint = key_fingerprint;
  token_sha256 = token_sha256;
  runtime_fallback = runtime_fallback;
  hitl_mode = hitl_mode;
  hitl_seen_vcs = c.hitl_seen_vcs;
  hitl_blocked_vcs = c.hitl_blocked_vcs;
  hitl_seen_classes = c.hitl_seen_classes;
  hitl_blocked_classes = c.hitl_blocked_classes;
  inline_asm_vcs = c.inline_asm_vcs;
  dma_vcs = c.dma_vcs;
  irq_race_vcs = c.irq_race_vcs;
}
