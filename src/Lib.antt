-- ===== src/Lib.antt =====
-- Spectrum 2 is a transport: XMPP (or Slack) users reach legacy networks through backend processes.
-- A frontend hands its users to the UserManager; NetworkPluginServer assigns each user to a backend
-- process, starts processes where needed, and talks to them over TCP in length-prefixed protobuf
-- messages; NetworkPlugin is the backends' side of that stream. UserRegistry checks passwords by
-- connecting the user, HTTPRequestQueue and ThreadPool carry requests to web services.
--
-- Files and the code they model:
--   ThreadPool       libtransport/ThreadPool.cpp: slots, queue and counter; init is the constructor,
--                    run_as_thread, get_free_thread, release_thread, clean_up and
--                    schedule_from_queue are the methods of those names; Step is one call from the
--                    event loop, Reach a history of them.
--   Framing          libtransport/NetworkPluginServer.cpp (send, handleDataRead) and
--                    plugin/cpp/networkplugin.cpp (send, handleDataRead); Framing/Types has the
--                    message types of include/transport/protocol.proto and the two switches.
--   Backends         libtransport/NetworkPluginServer.cpp: getFreeClient, handleUserCreated,
--                    handleUserDestroyed, handleUserReadyToConnect, connectWaitingUsers;
--                    Backends/Lifecycle has connections, PING and PONG, handleSessionFinished and
--                    User::handleDisconnected (libtransport/User.cpp); Backends/Pings has
--                    pingTimeout, moveToLongRunBackend and collectBackend.
--   Requests         libtransport/HTTPRequestQueue.cpp.
--   Registry         libtransport/UserRegistry.cpp.
--   Presences        libtransport/PresenceOracle.cpp.
--   Users            libtransport/UserManager.cpp: Users/Login has getUser, addUser and handlePresence
--                    (its checks are admit), Users/Removal has removeUser, removeAllUsers,
--                    handleRemoveTimeout, connectUser and disconnectUser, Users/Stanzas the other
--                    stanzas; Step is one call, Reach any calls since the manager was made.
--   Conversations    libtransport/Conversation.cpp (Conversations/Messages, Conversations/Participants)
--                    and libtransport/ConversationManager.cpp (Conversations/Manager);
--                    Conversations/Cached has sequences of messages and readers,
--                    Conversations/Renames who is in a room after a change.
--   Roster           libtransport/RosterManager.cpp (Roster/Store, Roster/Subscriptions), and
--                    libtransport/RosterStorage.cpp and LocalBuddy.cpp (Roster/Storage).
--   Sessions         libtransport/User.cpp: Sessions/Rooms has leaveRoom and the rooms of handlePresence,
--                    Sessions/Presence the rest of it, setConnected and onConnectingTimeout; Step is
--                    one call from outside, Reach the calls since the User was made.
--   Payloads         libtransport/NetworkPluginServer.cpp, the messages of a backend as the parts above
--                    receive them: Payloads/Handlers for users, rooms and conversations,
--                    Payloads/Buddies for rosters; Payloads/Network has handleMessageReceived.
--   Registrations    libtransport/UserRegistration.cpp and its XMPP side,
--                    spectrum/src/frontends/xmpp/XMPPUserRegistration.cpp: Registrations/Office, and
--                    Registrations/Forms for handleSetRequest.
--   Irc              backends/libcommuni/ircnetworkplugin.cpp: Irc/Text has names, lines and addresses,
--                    Irc/Requests one function per request; Step is a request, Reach a history.
--   Reconnecter      libtransport/UsersReconnecter.cpp.
--   Names            libtransport/Buddy.cpp: getSafeName, JIDToLegacyName, buddyFlagsFromJID, and
--                    the uin that libtransport/UserManager.cpp makes of a node.
--   Codec            libtransport/StorageBackend.cpp (passwords, groups) and protocol/Util.cpp
--                    (base64, URLs).
--   Prelude          shared tests, lists, keys, maps and the integers that the counters use.
--
-- Conventions. A pointer to an object is a number, its address; the heap of backends and users is a
-- function from addresses to records. A call that would use a deleted backend returns none. Numbers
-- are natural numbers where the code keeps them from being negative. Times, process ids and the
-- bytes that arrive are arguments. Protobuf's parser, and Swiften's JID and its
-- order of show values, are parameters.
--
-- Fuel. The read loops of Framing run on as much fuel as the buffer has bytes, since each round takes
-- at least the four bytes of a header. connectWaitingUsers runs on as much fuel as users wait, since
-- a round that goes on takes one of them out for good.
--
-- Not modelled: how the server's timers are armed, and the memory statistics of a backend but for the
-- one that collectBackend reads; vcards, room lists, statistics, configuration queries and raw XML
-- on their way through the server, and the media that service.enable_xhtml splits; the form that
-- users register with, and Slack's registration; the slots of an IRC session, and the Slack frontend;
-- the database backends, the libpurple and other protocol backends, the administration interface,
-- configuration and logging, which are input and output over other libraries; and vendored code.
pub mod Prelude
pub mod ThreadPool
pub mod Framing
pub mod Names
pub mod Codec
pub mod Backends
pub mod Requests
pub mod Registry
pub mod Presences
pub mod Users
pub mod Conversations
pub mod Roster
pub mod Sessions
pub mod Irc
pub mod Reconnecter
pub mod Payloads
pub mod Registrations
