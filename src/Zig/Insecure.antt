-- ===== src/Zig/Insecure.antt =====
-- A replay state that others may write, in skv-analyzer/src/zig/attestation_bridge.zig.
use sentinel_kv.Zig.Presents.{Presents}
use sentinel_kv.Zig.Works.{Works}
