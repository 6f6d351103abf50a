-- ===== src/Conversations.antt =====
-- Conversation and ConversationManager (libtransport/Conversation.cpp, ConversationManager.cpp): the
-- messages of a chat or a room on their way to the XMPP user, and the conversations of one user.
pub mod State
pub mod Messages
pub mod Participants
pub mod Manager
pub mod Cached
pub mod Private
pub mod Renames
mod Tests
