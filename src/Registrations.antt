-- ===== src/Registrations.antt =====
-- Registration of users over XMPP (libtransport/UserRegistration.cpp and
-- spectrum/src/frontends/xmpp/XMPPUserRegistration.cpp).
pub mod Office
pub mod Forms
pub mod Refusals
pub mod Farewell
mod Tests
