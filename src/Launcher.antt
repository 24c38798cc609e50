-- ===== src/Launcher.antt =====
-- The launcher's policies: launcher/src/neko_launcher/application and domain.
pub mod Domain
pub mod Activity
pub mod Policy
pub mod Reconnect
mod Tests
