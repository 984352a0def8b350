-- ===== src/Catalog.antt =====
-- The feature inventory of skv-analyzer/src/main.rs, as lines and as JSON.
use sentinel_kv.Prelude.{List, [], ◌∷◌, ◌++◌, Text, text}
use sentinel_kv.Console.{Action, println_all}
use sentinel_kv.Emission.{array_items}

unfoldable pub catalog_lines : List Text
unfolding text
catalog_lines =
    text "SKV Analyzer - Full Feature Inventory"
    ∷ text ""
    ∷ text "1) Core LLVM/Z3 memory safety analysis"
    ∷ text "- kmalloc/kzalloc/kcalloc allocation tracking"
    ∷ text "- Bounds checks for load/store/memcpy/memset"
    ∷ text "- Use-after-free and double-free detection via kfree tracking"
    ∷ text "- Pointer provenance through GEP, bitcast, ptrtoint/inttoptr, add/sub"
    ∷ text "- Conservative UNKNOWN semantics for unsupported patterns"
    ∷ text ""
    ∷ text "2) Ring policy enforcement"
    ∷ text "- ring0: standard analysis verdict flow"
    ∷ text "- ring-1: strict mode (UNKNOWN promoted to FAIL)"
    ∷ text "- ring-2: strict mode + independent root trust requirements"
    ∷ text ""
    ∷ text "3) Attestation validation (C or Zig backend)"
    ∷ text "- Token field validation: ring, attested, timestamp, nonce, counter"
    ∷ text "- ring-2 extra token requirement: root_attested:true"
    ∷ text "- Freshness enforcement with max token age"
    ∷ text "- Nonce challenge binding"
    ∷ text "- Replay protection with monotonic counter state"
    ∷ text "- Atomic replay-state update with file lock + fsync"
    ∷ text "- Secure file checks: regular file, owner UID match, safe permissions"
    ∷ text ""
    ∷ text "4) Cryptographic trust"
    ∷ text "- Detached Ed25519 signature verification over token bytes"
    ∷ text "- Pinned SHA-256 fingerprint check for attestation key"
    ∷ text "- ring-2 independent root signature + root key pinning"
    ∷ text ""
    ∷ text "5) Operational output and CI integration"
    ∷ text "- Human-readable PASS/FAIL/UNKNOWN output"
    ∷ text "- --json machine-readable verdict output"
    ∷ text "- --verdict-out file emission for SIEM/pipeline ingestion"
    ∷ text "- Stable exit codes: 0(pass), 10(fail), 20(unknown), 1(error)"
    ∷ text "- Panic-safe LLVM parse path (fail closed instead of process crash)"
    ∷ text ""
    ∷ text "6) HITL verification gate"
    ∷ text "- --hitl-mode off|require"
    ∷ text "- --hitl-approvals <path> newline-delimited approved VC IDs"
    ∷ text "- --hitl-class-approvals <path> newline-delimited approved VC class IDs"
    ∷ text "- require mode needs at least one approval source (VC IDs or class IDs)"
    ∷ text "- --emit-vcs <path> emits seen/blocked VC IDs for human review"
    ∷ text "- Class approvals allow reviewer to approve families of similar VCs"
    ∷ text "- Solver is never executed for unapproved VCs in require mode"
    ∷ text ""
    ∷ text "7) Runtime fallback policy"
    ∷ text "- --runtime-fallback auto|arm-mte|integritag|software-targeted"
    ∷ text
        "- auto resolves to arm-mte on aarch64, integritag on x86_64, software-targeted otherwise"
    ∷ text "- Runtime fallback policy is included in verdict output"
    ∷ text "- IntegriTag supports Intel TME-MK hardware cryptographic memory tagging"
    ∷ text ""
    ∷ text "8) Proof-Carrying Code (PCC)"
    ∷ text "- --emit-proof <path> outputs formal proof trace for memory safety"
    ∷ text "- --proof-format lfsc|rup selects trace format (LFSC/RUP)"
    ∷ text ""
    ∷ text "9) Build/runtime backends"
    ∷ text "- Default C attestation backend"
    ∷ text "- Optional Zig backend via SKV_ATTESTATION_IMPL=zig"
    ∷ text "- Automatic fallback to C when Zig is unavailable"
    ∷ text ""
    ∷ text "10) Production output hardening"
    ∷ text "- Verdict and VC emission files are written with secure 0600 permissions"
    ∷ text "- Existing output files must be regular files, owner-matched, and safe-mode"
    ∷ text "- Output file writes use explicit sync_all() for durability"
    ∷ text ""
    ∷ text "11) Inline assembly detection"
    ∷ text "- --inline-asm-policy conservative|trap"
    ∷ text
        "- Conservative mode: emit UNKNOWN VC for opaque inline asm (promoted to FAIL under Ring -1/-2)"
    ∷ text "- Trap mode: always FAIL on any inline assembly"
    ∷ text "- Inline asm VC count included in verdict JSON output"
    ∷ text ""
    ∷ text "12) DMA allocation verification"
    ∷ text "- --dma-policy verify|require-iommu|ignore"
    ∷ text "- Tracks dma_alloc_coherent as DMA allocation source"
    ∷ text "- Bounds-checks dma_map_single against allocation size"
    ∷ text "- require-iommu: FAIL if DMA allocation has no paired iommu_map call"
    ∷ text "- DMA VC count included in verdict JSON output"
    ∷ text ""
    ∷ text "13) Interrupt sequentialization"
    ∷ text "- Pre-scans module for request_irq handler registrations"
    ∷ text "- Identifies handlers that call kfree on tracked allocations"
    ∷ text "- Emits irq_race VCs for accesses that could race with interrupt-triggered frees"
    ∷ text "- Conservative over-approximation: sound but may produce false positives"
    ∷ text "- IRQ race VC count included in verdict JSON output"
    ∷ text ""
    ∷ text "14) VC equivalence class grouping"
    ∷ text "- --emit-equiv-summary <path> outputs grouped VC classes for HITL review"
    ∷ text "- VC classes group structurally equivalent access patterns"
    ∷ text "- Class-level approval via --hitl-class-approvals prevents reviewer fatigue"
    ∷ text "- Equivalence summary includes per-class counts and member VC lists"
    ∷ []

unfoldable pub print_feature_catalog : Action (Unit {0})
unfolding println_all catalog_lines
print_feature_catalog = println_all catalog_lines

unfoldable pub catalog_items : List Text
unfolding text
catalog_items =
    text "Core LLVM/Z3 memory safety analysis"
    ∷ text "kmalloc/kzalloc/kcalloc allocation tracking"
    ∷ text "Bounds checks for load/store/memcpy/memset"
    ∷ text "Use-after-free and double-free detection via kfree tracking"
    ∷ text "Pointer provenance through GEP, bitcast, ptrtoint/inttoptr, add/sub"
    ∷ text "Conservative UNKNOWN semantics for unsupported patterns"
    ∷ text "Ring policy: ring0/ring-1/ring-2"
    ∷ text "Ring-2 independent root trust requirements"
    ∷ text "Attestation fields: ring, attested, timestamp, nonce, counter"
    ∷ text "Ring-2 token requirement: root_attested:true"
    ∷ text "Freshness max-age enforcement"
    ∷ text "Nonce challenge binding"
    ∷ text "Replay protection with monotonic counter state"
    ∷ text "Atomic replay-state locking + fsync"
    ∷ text "Secure file checks: regular, owner UID, safe permissions"
    ∷ text "Detached Ed25519 signature verification"
    ∷ text "Pinned SHA-256 key fingerprint checks"
    ∷ text "Ring-2 independent root signature + key pinning"
    ∷ text "Machine-readable verdict JSON (--json)"
    ∷ text "Verdict file output (--verdict-out)"
    ∷ text "Stable exit codes: 0/10/20/1"
    ∷ text "Panic-safe LLVM parse rejection"
    ∷ text "HITL gate: --hitl-mode off|require"
    ∷ text "HITL approvals file: --hitl-approvals"
    ∷ text "HITL class approvals: --hitl-class-approvals"
    ∷ text "HITL require mode requires VC or class approvals"
    ∷ text "VC emission for human review: --emit-vcs"
    ∷ text "HITL require mode fail-closed on blocked VCs"
    ∷ text "Runtime fallback policy: --runtime-fallback auto|arm-mte|integritag|software-targeted"
    ∷ text "IntegriTag Intel TME-MK hardware support"
    ∷ text "Proof-Carrying Code emission: --emit-proof <path>"
    ∷ text "Supported PCC formats: LFSC and RUP"
    ∷ text "Secure output writing: 0600 + sync_all + owner/mode checks"
    ∷ text "Backends: C default, Zig optional, C fallback"
    ∷ text "Inline asm detection: --inline-asm-policy conservative|trap"
    ∷ text "Opaque inline asm VC emission with HITL gate integration"
    ∷ text "DMA allocation tracking: dma_alloc_coherent/dma_map_single"
    ∷ text "DMA bounds verification: --dma-policy verify|require-iommu|ignore"
    ∷ text "Interrupt sequentialization via request_irq pre-scan"
    ∷ text "IRQ race VC emission for handler-induced frees"
    ∷ text "VC equivalence class grouping: --emit-equiv-summary"
    ∷ text "Structural VC class approval to prevent reviewer fatigue"
    ∷ text "Stack-spill pointer tracking through alloca/store/load chains"
    ∷ []

unfoldable pub feature_catalog_json : Text
unfolding text array_items catalog_items
feature_catalog_json =
    array_items 0 catalog_items (text "{\"name\":\"SKV Analyzer\",\"features\":[") ++ text "]}"
