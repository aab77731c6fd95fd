-- ===== src/Tests.antt =====
-- Concrete runs of the relay, one for each theorem that has hypotheses.
mod Data
mod Config
mod Registry
mod Session
mod Binding
mod Ipc
mod Main
mod Dashboard
mod Start
mod Tasks
mod Guarded
mod Conversation
mod Order
