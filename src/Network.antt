-- ===== src/Network.antt =====
-- src/network: messages over TCP connections between ranked processes.
pub mod Head
pub mod Connection
pub mod Receive
pub mod Registry
pub mod Send
pub mod Dispatch
pub mod Server
pub mod Inbox
pub mod Node
