-- ===== src/Providers.antt =====
-- The AI providers of the agent: src/paperless_assistant/providers.
pub mod Pricing
pub mod Structured
pub mod Anthropic
pub mod Hosted
mod Examples
