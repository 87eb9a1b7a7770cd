-- ===== src/ControlPlane.antt =====
-- The vendor side: src/paperless_control_plane.
pub mod Store
pub mod Billing
pub mod Inference
pub mod App
pub mod Direct
mod Examples
