-- ===== src/Masking.antt =====
-- packages/ai-core/src/ai_core/masking/masker.py and gate.py: PII is replaced by numbered
-- placeholders, and the gate scans the result once more before a text may leave the process.
-- The regular expressions are run by Python's `re`, so the engine is a parameter.
pub mod Defs
pub mod Table
pub mod Gate
pub use Defs.{Kind, Segment, plain, matched, Engine, MaskResult}
unfoldable pub use Defs.{detect_pii, ensure_masked, mask, unmask}
