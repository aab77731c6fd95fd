-- ===== src/Main.antt =====
-- src/main.rs: the command line, the loop of the registration socket and the dashboard connections.
pub mod Args
pub mod Registrations
pub mod Foreign
pub mod WebSocket
pub mod Dashboard
pub mod Wire
pub mod Answers
pub mod Received
pub mod Replies
pub mod Opening
pub mod Conversation
pub mod First
pub mod Conversed
pub mod Steady
pub mod Heard
pub mod Reading
pub mod Stable
pub mod Served
pub mod Guarded
pub mod AutoBind
pub mod Ending
pub mod Unopened
pub mod Connection
pub mod Admission
pub mod Vouched
pub mod Tasks
pub mod Tls
pub mod Secured
pub mod Run
pub mod Started
