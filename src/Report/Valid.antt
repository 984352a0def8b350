-- ===== src/Report/Valid.antt =====
-- The JSON of a verdict, as a document.
use sentinel_kv.Prelude.{ends}
use sentinel_kv.Prelude.{
  ℕ, ◌≤◌, ◌≡◌, refl, sym, ap, ◌∙◌, Bool, true, not, ◌&&◌, ◌||◌, Option, none, some, [], ◌∷◌, ◌++◌,
  Text, text, replace, nat_beq, ltb, arith,
}
use mathlib.Core.List.{append_assoc}
use sentinel_kv.Policy.{AnalysisResult, pass, fail, unknown, HitlMode, off, require, hitl_label}
use sentinel_kv.Json.{
  Json, null, number, string, object, end, field, escape_char, escape, quoted, print, is_printable,
  is_writable, size,
}
use sentinel_kv.Json.Reader.{read}
use sentinel_kv.Json.RoundTrip.{read-print}
use sentinel_kv.Report.{
  RuntimeFallbackPolicy, auto, arm_mte, integri_tag, software_targeted, resolved, Verdict,
  escaped_message, quoted_or_null, to_json, status_of, message_of, Counts, verdict_from_result,
}

replace-append : (c : ℕ) (by s t : Text) → replace c by (s ++ t) ≡ replace c by s ++ replace c by t
unfolding replace
replace-append c by [] t = refl
replace-append c by (x ∷ s) t =
    ground (arith, replace-append c by s t, append_assoc by (replace c by s) (replace c by t))

-- the three replacements, one behind the other, are the escapes of one pass
escaped_message-escape : (s rest : Text) → escaped_message s ++ rest ≡ escape s rest
unfolding escaped_message escape escape_char replace
escaped_message-escape [] rest = refl
escaped_message-escape (c ∷ s) rest = ground (arith, escaped_message-escape s rest)

-- no character of the text is escaped
abbrev pub is_plain : Text → Bool
is_plain [] = true
is_plain (c ∷ s) =
    not (nat_beq c b'\\' || nat_beq c b'"' || nat_beq c b'\n' || ltb c 32) && is_plain s

pub escape_plain : (s rest : Text) → is_plain s ≡ true → escape s rest ≡ s ++ rest
unfolding escape escape_char
escape_plain [] rest h = refl
escape_plain (c ∷ s) rest h = ground (arith, escape_plain s rest)

pub printable_plain : (s : Text) → is_plain s ≡ true → is_printable s ≡ true
unfolding is_printable
printable_plain [] h = refl
printable_plain (c ∷ s) h = ground (arith, printable_plain s)

abbrev pub string_or_null : Option Text → Json
string_or_null none = null
string_or_null (some s) = string s

abbrev pub is_plain_or_none : Option Text → Bool
is_plain_or_none none = true
is_plain_or_none (some s) = is_plain s

quoted_or_null_lem :
    (o : Option Text) (rest : Text)
    → is_plain_or_none o ≡ true
    → print (string_or_null o) rest ≡ quoted_or_null o ++ rest
unfolding quoted_or_null print quoted
quoted_or_null_lem none rest h = refl
quoted_or_null_lem (some s) rest h =
    ap (λ t. b'"' ∷ t) (escape_plain s (b'"' ∷ rest) h ∙ sym (append_assoc s (b'"' ∷ []) rest))

-- The document that a verdict stands for.
unfoldable pub document : Verdict → Json
unfolding text
document v = object (
    field (text "status") (string v.status) (
      field (text "code") (number v.code) (
        field (text "message") (string v.message) (
          field (text "key_fingerprint") (string_or_null v.key_fingerprint) (
            field (text "token_sha256") (string_or_null v.token_sha256) (
              field (text "runtime_fallback") (string v.runtime_fallback) (
                field (text "hitl_mode") (string v.hitl_mode) (
                  field (text "hitl_seen_vcs") (number v.hitl_seen_vcs) (
                    field (text "hitl_blocked_vcs") (number v.hitl_blocked_vcs) (
                      field (text "hitl_seen_classes") (number v.hitl_seen_classes) (
                        field (text "hitl_blocked_classes") (number v.hitl_blocked_classes) (
                          field (text "inline_asm_vcs") (number v.inline_asm_vcs) (
                            field (text "dma_vcs") (number v.dma_vcs)
                              (field (text "irq_race_vcs") (number v.irq_race_vcs) end))))))))))))))

-- The texts that `to_json` writes with no escapes need none.
pub record IsPlainVerdict (v : Verdict) : Type 0 where
  pub status : is_plain v.status ≡ true
  pub key_fingerprint : is_plain_or_none v.key_fingerprint ≡ true
  pub token_sha256 : is_plain_or_none v.token_sha256 ≡ true
  pub runtime_fallback : is_plain v.runtime_fallback ≡ true
  pub hitl_mode : is_plain v.hitl_mode ≡ true

to_json-eq-print : (v : Verdict) → IsPlainVerdict v → to_json v ≡ print (document v) []
unfolding to_json print quoted document text escape escape_char
to_json-eq-print v p = simp (
  λ (rest : Text). escape_plain v.status rest p.status,
  λ (rest : Text). escaped_message-escape v.message rest,
  λ (rest : Text). escape_plain v.runtime_fallback rest p.runtime_fallback,
  λ (rest : Text). escape_plain v.hitl_mode rest p.hitl_mode,
  λ (rest : Text). quoted_or_null_lem v.key_fingerprint rest p.key_fingerprint,
  λ (rest : Text). quoted_or_null_lem v.token_sha256 rest p.token_sha256,
)

resolved_plain : (arch : Text) (p : RuntimeFallbackPolicy) → is_plain (resolved arch p) ≡ true
unfolding resolved text
resolved_plain arch auto = ground arith
resolved_plain arch arm_mte = refl
resolved_plain arch integri_tag = refl
resolved_plain arch software_targeted = refl

pub hitl_label_plain : (m : HitlMode) → is_plain (hitl_label m) ≡ true
unfolding hitl_label text
hitl_label_plain off = refl
hitl_label_plain require = refl

status_of_plain : (r : AnalysisResult) → is_plain (status_of r) ≡ true
unfolding status_of text
status_of_plain pass = refl
status_of_plain (fail m) = refl
status_of_plain (unknown m) = refl

string_or_null-writable :
    (o : Option Text)
    → is_plain_or_none o ≡ true
    → (is_writable (string_or_null o) ≡ true) × (size (string_or_null o) ≡ 1)
unfolding is_writable size
string_or_null-writable none h = (refl, refl)
string_or_null-writable (some s) h = (printable_plain s h, refl)

document-writable :
    (v : Verdict)
    → IsPlainVerdict v
    → is_printable v.message ≡ true
    → (is_writable (document v) ≡ true) × (size (document v) ≤ 30)
unfolding document is_writable size text is_printable
document-writable v p m =
    let fp = string_or_null-writable v.key_fingerprint p.key_fingerprint in
    let sha = string_or_null-writable v.token_sha256 p.token_sha256 in
    (
      rw
          (
            printable_plain _ p.status,
            m,
            fp.0,
            sha.0,
            printable_plain _ p.runtime_fallback,
            printable_plain _ p.hitl_mode,
          )
          refl,
      rw (fp.1, sha.1) (omega arith),
    )

module _ (r : AnalysisResult) (fp sha : Option Text) (arch : Text) (p : RuntimeFallbackPolicy)
    (mode : HitlMode) (c : Counts) where
  -- The JSON of a verdict is read back as the document with its fourteen fields: whatever quotes,
  -- backslashes and line feeds the message holds, if it holds no other control character and the two
  -- sums need no escapes.
  pub to_json-read :
      is_plain_or_none fp ≡ true
      → is_plain_or_none sha ≡ true
      → is_printable (message_of r) ≡ true
      → (let v = verdict_from_result r fp sha (resolved arch p) (hitl_label mode) c in
          read 30 (to_json v) ≡ some (document v, []))
  unfolding verdict_from_result ends
  to_json-read hf hs hm =
      let v = verdict_from_result r fp sha (resolved arch p) (hitl_label mode) c in
      let plain : IsPlainVerdict v = record {
        status = status_of_plain r;
        key_fingerprint = hf;
        token_sha256 = hs;
        runtime_fallback = resolved_plain arch p;
        hitl_mode = hitl_label_plain mode;
      } in
      let (w, le) = document-writable v plain hm in
      rw (to_json-eq-print v plain) (read-print (document v) 30 [] le w refl)
