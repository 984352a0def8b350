-- ===== src/Lib.antt =====
-- sentinel-kv is a static analyzer for kernel drivers: it walks the LLVM IR of a module, follows the
-- allocations of kmalloc and of the DMA calls, and asks an SMT solver whether each access stays
-- within its allocation. A gate (HITL) may demand a human's approval of each question, and the
-- strict rings accept a result only with a signed attestation token. The program is
-- skv-analyzer/src/main.rs; its functions below are those of that file.
--
-- The parts, and the files that model them:
--   Ir          the LLVM IR that the analyzer reads (skv-analyzer/llvm-ir-patched/src), and
--               `function_name_of_call`, `operand_const_u64`, `operand_local_name`
--   Policy      the enums of the command line, `AnalysisResult`, `mark_unknown`
--   Layout      `type_size`, `resolve_named_type`, `infer_gep_offset`
--   Gate        `HitlGate`, `should_run_solver`, `check_access`, `enforce_hitl_policy`
--   InlineAsm   `is_safe_inline_asm`
--   Irq         `scan_irq_handlers`
--   Analyzer    `analyze`: State holds its local variables as a record; Heap, Memory, Dma and Pointers
--               the arms of its match; Step the match itself; Run the three loops, the check of
--               the IOMMU policy behind them and the outcome. The children after Run hold proofs.
--   Host        what the program calls and does not define: files, base64, SHA-256, Ed25519; the
--               attestation bridge is a field of it too, `validate_token`
--   Files       `ensure_secure_owned_file`, `nix_like_euid`, `write_output_file`,
--               `load_hitl_approvals`
--   Signature   `verify_attestation_signature`, `normalize_fingerprint`
--   Ring        `apply_ring_policy`
--   Bridge      `skv_validate_attestation_token` of skv-analyzer/src/c/attestation_bridge.c, with the
--               parser of tokens (Parse) and C's numbers (Numbers); Chain puts it into Ring,
--               with the paths and the nonce as the bytes that `CString::new` makes
--   Zig         `skv_validate_attestation_token` of skv-analyzer/src/zig/attestation_bridge.zig, with its
--               parser (Parse)
--   Build       skv-analyzer/build.rs, which chooses between the two
--   Ledger      what both bridges promise, a ledger of one counter, and the interface that Bridge and
--               Zig fill in their modules Refines; it models no code of the program
--   Report      `Verdict`, `to_json`, `verdict_from_result`, `RuntimeFallbackPolicy`
--   Emission    `emit_hitl_vcs`
--   Catalog     `print_feature_catalog`, `feature_catalog_json`
--   Doctor      `run_doctor`, `print_token_template`
--   Tui         `run_tui`, `pause_tui`
--   CommandLine `Args`, `Commands`, and `Env`, what a run asks of its surroundings
--   Program     `run` with its subcommands, `main`
--   Console     the effects of a run: the lines that it prints and the files that it writes
--   Json        JSON documents with a printer and a reader, by which the reports are judged; it
--               models no code of the program
--   Prelude     shared helpers; Examples: concrete inputs and tests
--
-- State and control: an arm of the match is a function from the state to a `Flow`, `next` where the
-- loop goes on (`continue`, or the end of the arm) and `stop` where it is left (`break`). An early
-- return of `apply_ring_policy` is `give_up`, and of a function with a `Result` is `err`. A map is an
-- association list, a set a list without duplicates, a text a list of code points. Sizes are u64 with
-- their wrap, saturation and checks written out; offsets are integers without bound, as the terms
-- of the solver are. Counters of usize are not bounded.
--
-- The bridge takes the replay state as the bytes of its file and gives the bytes it leaves. What its
-- system calls give is a record, `System`. A difference of times wraps at 64 bits, as compilers do
-- it; in C such an overflow is undefined. The Zig bridge takes with the bytes what `lstat` finds at the
-- path of the replay state, since it decides by it; where its ReleaseSafe build ends the process, the
-- answer is `panicked`. A read of a file gives all of its bytes.
--
-- Parameters: the SMT solver (a function from a closed formula to its answer; a theorem that needs
-- right answers says `IsSound`), the order in which a hash set is walked, the type of an operand and
-- the definition of a named struct (fields of `Module`), and the host.
--
-- Effects: a step of `run` takes the list of effects so far and gives its result with a longer list.
-- What the program asks of the outside is answered by `World`, a function of the effects so far, so
-- that files may change with the program's own writes; changes by others between two writes that
-- the program does not see are not told apart. The menu takes a list of inputs, behind whose end the
-- input is closed.
--
-- A file that is written is a record (`Written`) that the steps of `write_output_file` change: opening
-- gives the permissions that it has then, and a write notes those that it was done under.
--
-- Fuel: `resolve_named_type` and `type_size`, which follow the nesting of types, take `type_depth`.
-- A type that is nested deeper has no size, so its accesses are `Unknown`; the program would go on,
-- on a type that does not hold itself to the size that Layout/Meaning defines, which fuel above the
-- height of the type is enough to find (Layout/Exact), and on one that holds itself for ever. The
-- menu takes a number of rounds: as many as there are input lines are enough where it ends at all
-- (Tui/Loop). The reader of JSON takes the size of the document.
--
-- Not modelled: how clap reads the command line into `Args`, with its help and its usage errors; the
-- llvm-ir library beyond its data types, a copy of another project; what other processes do to the
-- replay state, which the C bridge locks and the Zig bridge does not.
pub mod Prelude
pub mod Ir
pub mod Policy
pub mod Layout
pub mod Gate
pub mod InlineAsm
pub mod Irq
pub mod Analyzer
pub mod Host
pub mod Files
pub mod Signature
pub mod Ring
pub mod Ledger
pub mod Bridge
pub mod Zig
pub mod Build
pub mod Json
pub mod Report
pub mod Emission
pub mod Console
pub mod Catalog
pub mod Doctor
pub mod Tui
pub mod CommandLine
pub mod Program
pub mod Examples
