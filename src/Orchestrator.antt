-- ===== src/Orchestrator.antt =====
-- packages/ai-core/src/ai_core/orchestrator.py: one question, from the masked prompt through the
-- loop of tool calls and the streamed answer to the final event.
pub mod Types
pub mod Texts
pub mod Loop
pub mod Steps
pub mod Sent
pub mod Evidence
pub mod Judge
pub mod Answer
pub mod Outgoing
pub mod Turns
pub mod Rounds
pub mod Streaming
pub mod Gathered
pub mod Endings
pub mod Ends
pub mod Shown
