-- ===== src/Users.antt =====
-- UserManager (libtransport/UserManager.cpp): who is logged in, and which login is let through.
-- `Users/State` has the manager's state and what it calls, `Users/Login` the checks of a login and
-- handlePresence, `Users/Removal` the end of a user, `Users/Stanzas` the other stanzas.
pub mod State
pub mod Login
pub mod Removal
pub mod Stanzas
pub mod Same
pub mod Cache
pub mod Leaving
pub mod Sound
pub mod Reached
pub mod Expiry
pub mod Admission
mod Tests
