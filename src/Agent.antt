-- ===== src/Agent.antt =====
-- src/paperless_assistant/: the agent that runs next to Paperless.
pub mod HostedState
pub mod Hosted
pub mod Webhook
pub mod Fields
pub mod Client
pub mod Config
pub mod Progress
pub mod Provision
pub mod Stages
pub mod Safety
pub mod Spend
pub mod Ocr
pub mod Sweep
pub mod Taxonomy
pub mod Metadata
mod DocumentExamples
mod Examples
