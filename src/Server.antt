-- ===== src/Server.antt =====
-- src/Server/server.h and server.cpp, one module for each group of member functions, and what is
-- proved of them below each.
pub mod State
pub mod Mailbox
pub mod Routing
pub mod Sync
pub mod Listen
pub mod Threads
