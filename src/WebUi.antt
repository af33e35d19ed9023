-- ===== src/WebUi.antt =====
-- ui_handler.go: the web interface.
pub mod Reply
pub mod Accounts
pub mod Tunnels
pub mod Login
pub mod Handler
pub mod Routes
pub mod Rule
pub mod Isolation
pub mod Shown
pub mod Own
pub mod Confidential
pub mod Privacy
pub mod Calls
pub mod Pending
