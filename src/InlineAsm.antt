-- ===== src/InlineAsm.antt =====
-- `SAFE_ASM_PATTERNS` and `is_safe_inline_asm` of skv-analyzer/src/main.rs.
use sentinel_kv.Prelude.{
  Bool, true, false, ◌||◌, List, [], ◌∷◌, map, Text, text, text_beq, starts_with, trim, to_lower,
}

unfoldable pub safe_asm_patterns : List Text
unfolding text
safe_asm_patterns =
    text "rdtsc"
    ∷ text "rdtscp"
    ∷ text "cpuid"
    ∷ text "pause"
    ∷ text "mfence"
    ∷ text "sfence"
    ∷ text "lfence"
    ∷ text "cli"
    ∷ text "sti"
    ∷ text "nop"
    ∷ text "rep nop"
    ∷ text "ud2"
    ∷ text "int3"
    ∷ text "wbinvd"
    ∷ text "invlpg"
    ∷ text "xgetbv"
    ∷ []

-- the loop over the patterns
unfoldable pub matches_any : List Text → Text → Bool
matches_any [] normalized = false
matches_any (pattern_text ∷ rest) normalized =
    text_beq normalized pattern_text
    || starts_with normalized pattern_text
    || matches_any rest normalized

unfoldable pub is_empty : Text → Bool
is_empty [] = true
is_empty (c ∷ s) = false

unfoldable pub normalize_asm : Text → Text
unfolding trim to_lower
normalize_asm asm_string = map to_lower (trim asm_string)

unfoldable pub is_safe_inline_asm : Text → Bool
unfolding safe_asm_patterns matches_any is_empty normalize_asm
is_safe_inline_asm asm_string =
    let normalized = normalize_asm asm_string in
    matches_any safe_asm_patterns normalized || is_empty normalized
