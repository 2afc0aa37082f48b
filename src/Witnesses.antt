-- ===== src/Witnesses.antt =====
-- Concrete runs: each theorem of the header's list at an input of its own, and tests of the helpers.
mod Commands
mod Log
mod Tasks
mod Settings
mod Routing
mod Shelves
mod Plaza
mod Samples
mod Requests
mod Outbox
mod Accounts
mod Studio
