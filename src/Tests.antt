-- ===== src/Tests.antt =====
-- Concrete inputs: each theorem with hypotheses or parameters is applied to data that meets them.
pub mod World
mod Inquiries
mod Masking
mod Citations
mod Budget
mod History
pub mod Registry
mod Confidence
pub mod Orchestrator
pub mod AnswerCache
mod Assistant
mod Parking
pub mod Session
mod Access
mod FeePeriods
mod FeeComparison
mod LlmClient
mod Chunking
mod RateLimit
