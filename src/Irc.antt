-- ===== src/Irc.antt =====
-- The IRC backend's plugin (backends/libcommuni/ircnetworkplugin.cpp): its sessions by name, and what
-- it sends to the IRC network and to the server. The library behind MyIrcSession is outside.
pub mod Text
pub mod State
pub mod Requests
pub mod Lines
pub mod Addresses
pub mod Gateway
pub mod Reached
pub mod Throws
mod Tests
