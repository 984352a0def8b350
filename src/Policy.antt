-- ===== src/Policy.antt =====
-- The modes and policies of the command line, and `AnalysisResult` (skv-analyzer/src/main.rs).
use sentinel_kv.Prelude.{Bool, true, false, Option, none, some, Text, text}
use sentinel_kv.Prelude.Int.{ℤ, negsuc}

pub data RingMode : Type 0 where
  ring0 ring_m1 ring_m2 : RingMode

unfoldable pub ring_label : RingMode → Text
ring_label ring0 = text "Ring 0"
ring_label ring_m1 = text "Ring -1"
ring_label ring_m2 = text "Ring -2"

unfoldable pub token_ring : RingMode → Option ℤ
token_ring ring0 = none
token_ring ring_m1 = some (negsuc 0)
token_ring ring_m2 = some (negsuc 1)

pub data HitlMode : Type 0 where
  off require : HitlMode

unfoldable pub hitl_label : HitlMode → Text
hitl_label off = text "off"
hitl_label require = text "require"

pub data InlineAsmPolicy : Type 0 where
  conservative trap : InlineAsmPolicy

pub data DmaPolicy : Type 0 where
  verify require_iommu ignore : DmaPolicy

pub data AnalysisResult : Type 0 where
  pass : AnalysisResult
  fail : Text → AnalysisResult
  unknown : Text → AnalysisResult

-- Only `Pass` becomes `Unknown`: the first reason stays, and `Fail` stays.
unfoldable pub mark_unknown : AnalysisResult → Text → AnalysisResult
mark_unknown pass reason = unknown reason
mark_unknown (fail m) reason = fail m
mark_unknown (unknown m) reason = unknown m

-- `matches!(r, AnalysisResult::Fail(_))`
abbrev pub is_fail : AnalysisResult → Bool
is_fail (fail m) = true
is_fail _ = false
