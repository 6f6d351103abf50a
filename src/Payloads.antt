-- ===== src/Payloads.antt =====
-- The messages of a backend, as the server handles them once they are parsed
-- (libtransport/NetworkPluginServer.cpp): they reach the UserManager, a User, a conversation or a
-- roster. Payloads/Network has the way back, of a user's message to his backend.
pub mod State
pub mod Handlers
pub mod Buddies
pub mod Network
pub mod Delivery
pub mod Rosters
mod Tests
