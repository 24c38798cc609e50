-- ===== src/Updater.antt =====
-- launcher/src/neko_launcher/updater
pub mod Json
pub mod Codec
pub mod Models
pub mod Successor
pub mod Transition
pub mod Frame
pub mod Platform
pub mod Selector
pub mod Abort
pub mod Activation
pub mod Rollback
pub mod Recovery
pub mod Samples
mod Tests
