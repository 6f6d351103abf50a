-- ===== src/Sessions.antt =====
-- The User objects (libtransport/User.cpp) as their frontend sees them: presences, rooms and the
-- decision to connect. Backends/Lifecycle has what the server keeps of a user.
pub mod State
pub mod Rooms
pub mod Presence
pub mod Quiet
pub mod Joined
pub mod Kept
pub mod Open
pub mod Rejoin
pub mod Reached
pub mod Leaving
mod Tests
