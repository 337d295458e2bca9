-- ===== src/Tests.antt =====
-- Runs of the definitions at fixed inputs, and the theorems at inputs that meet their hypotheses.
mod Fixtures
mod Texts
mod Servers
mod Clients
mod Networks
mod SyncRounds
mod Spreads
mod Starts
mod Sources
mod Loops
mod Programs
mod Conversations
mod Faults
mod Bounces
