-- ===== src/Llm.antt =====
-- app/classifier/llm: the providers of language models, the record of what was spent on them, the
-- cleaning of texts, and the client that asks the providers one after the other.
pub mod Sanitize
pub mod Providers
pub mod Spend
pub mod Calls
mod Tests
