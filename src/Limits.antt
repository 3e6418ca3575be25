-- ===== src/Limits.antt =====
-- The three limiters of the program: of LLM calls, of web requests, of dedup scans.
pub mod Groq
pub mod Requests
pub mod Scans
mod Tests
