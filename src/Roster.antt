-- ===== src/Roster.antt =====
-- RosterManager, RosterStorage and LocalBuddy (libtransport/RosterManager.cpp, RosterStorage.cpp,
-- LocalBuddy.cpp): the buddies of one user, and what a subscription does to them. A `Buddy *` is a
-- number, its address, and `live` tells which are allocated; `J` is Swift's JID. What the frontend,
-- the backend and the database are told is an effect, newest last.
pub mod Store
pub mod Subscriptions
pub mod Found
pub mod Verdict
pub mod Storage
mod Tests
