-- ===== src/WindowManager.antt =====
-- window-manager: the window server, its protocol and its backend.
pub mod Protocol
pub mod Backend
pub mod Server
pub mod Headless
mod Tests
