-- ===== src/Api.antt =====
-- api.go: the operations of the HTTP interface and the handlers that call them.
pub mod Tunnels
pub mod Tokens
pub mod Users
pub mod Clients
pub mod Handlers
pub mod Visibility
pub mod Requests
pub mod Rule
pub mod Threads
pub mod Isolation
pub mod Denial
pub mod Soundness
pub mod Limited
pub mod ClientLists
