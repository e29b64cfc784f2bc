-- ===== src/Lib.antt =====
-- ThreadLink: a chat of browsers over a gateway (gateway/src, TypeScript) and a TCP server
-- (src, C++). A browser speaks JSON over a WebSocket to the gateway; the gateway authenticates it,
-- keeps accounts, conversations and messages in SQLite, and opens one connection to the TCP server
-- for each session, over which it speaks length-prefixed lines.
--
-- What models what:
--   Prelude            texts as lists of units, dictionaries, tests, integers
--   Wire               gateway/src/wireProtocol.ts: FrameDecoder.push and encodeFrame; `receive` is
--                      the data listener of backendConnection.ts on a list of chunks
--   BackendConnection  gateway/src/backendConnection.ts: one connection, as what is called and what its
--                      socket reports; `connect` is called once, first;
--                      Mirror compares it with what Gateway keeps of it
--   BackendMessages    gateway/src/backendMessages.ts; its child Server is Server::handle_line of
--                      src/Server.cpp, which reads what the gateway formats
--   ChatServer         src/Server.cpp: its clients; Commands are handle_line, handle_nick, handle_msg and
--                      handle_list, Threads the accept loop, the clients' threads and the sending, as jobs
--                      that any interleaving runs; Frames is the reading of frames of
--                      src/Protocol.cpp, Spoken what the threads do with a message to its end, and Bytes
--                      the gateway's lines as bytes
--   System             the gateway and the server over their lines: Dialogue is the login, Chat a message
--                      from session to session, Stream what the gateway reads of a connection,
--                      Shown the way from the gateway to the screen
--   Protocol           the types of gateway/src/clientProtocol.ts
--   ClientProtocol     its validateClientMessage, on JSON values; encodeOutbound of
--                      frontend/types/protocol.ts up to the text
--   ServerProtocol     encodeServerMessage of gateway/src/clientProtocol.ts up to the text; Shapes are the
--                      types that frontend/types/protocol.ts gives to it
--   Database           gateway/src/db.ts: the tables as lists of rows, the statements as functions;
--                      `none` is a violated constraint
--   Auth, Users        gateway/src/auth.ts and users.ts
--   Conversations      gateway/src/conversationManager.ts
--   Messages           gateway/src/messageStore.ts
--   Config             gateway/src/config.ts
--   Sessions           gateway/src/session.ts and sessionManager.ts
--   Gateway            gateway/src/gatewayServer.ts: Actions (broadcasts, ready), Messaging (what a
--                      welcomed session asks for), BackendEvents (what the backend says), Login
--                      (connections and authentication), Steps (all of it as a machine of events);
--                      the theorems about it stand in Gate, Safety, Delivery, Once, Kept,
--                      Sends, LoginRun, Queueing, Shutdown and LateLogin
--   Logging, Process   gateway/src/logger.ts and index.ts
--   Environment        what comes from Node and SQLite
--   ChatState          frontend/types/chat.ts and the state of frontend/context/chatState.ts; its
--                      children are Summaries, what is made of the gateway's summaries, and Reducer,
--                      which is chatReducer
--   Transport          frontend/lib/websocket-client.ts and parseInbound of
--                      frontend/types/protocol.ts; Machine is the client as a machine of events, and
--                      Phases what it promises
--   Provider           frontend/context/ChatProvider.tsx over ChatState and Transport; Actions are
--                      its callbacks and its events, Reads what the components read of it
--   View               frontend/components: what they show of the state and what a click does, as lists
--                      in the order of the document; Composing and Groups follow a text and a group
--                      from the form to the gateway
--   Page               frontend/lib/storage.ts, frontend/lib/id.ts, frontend/hooks/useAutoScroll.ts
--
-- A Session object is shared by the roster and by every callback, so sessions live in a heap and are
-- named by numbers. What leaves the gateway is written to `log`, in order. A handler is cut where it
-- awaits scrypt or the backend's connection: `tasks` are the handlers that wait, and the events of
-- Steps come in any order. JSON.parse, scrypt, randomUUID, the clock, the order of ORDER BY and the
-- text of a database error are fields of Environment.
--
-- The loop of `push` runs on fuel, one round more than the buffer has bytes; each round takes at
-- least the four bytes of a header, so that is enough. The server's `read_frames` does the same over its
-- frames. Everything else recurs on its argument.
--
-- A thread of the server is a list of jobs. What it does under one lock of `clients_mtx_`, and what it
-- sends under the write mutex of one client, is one job; after each job any thread may go on. The map
-- of the clients is a list, of which nothing depends on the order. The loop of
-- `assign_default_nickname_locked` runs on fuel, a round for each client.
--
-- The browser's WebSockets are numbered in the order in which they are made; an event of one that is
-- not the client's any more has no callback. The callbacks that the client calls during an operation
-- are done after it, in their order. React's rendering is an event, after which stateRef is the state.
-- JSON.parse, the errors of `new WebSocket`, ids and times, and what depends on the
-- locale are fields of Browser, World and Locale.
--
-- The gateway's and the browser's texts are UTF-16 code units, the server's texts are the bytes of a
-- `std::string`; where a text crosses, UTF-8 is the parameter Utf8, of which only what it does to ASCII
-- characters is asked. The lines of the login are ASCII and are taken as the same on both sides.
--
-- An exception or a rejected promise that nothing handles is the effect `rejected`; the process ends with
-- it, so that what stands behind it in a log does not happen.
--
-- Not modelled: sockets and their timing, the SQLite file, the console, styles and icons;
-- of the C++ server the listening socket, errors of sockets, the configuration file, logging and the
-- joining of threads; the terminal client.
pub mod Prelude
pub mod View
pub mod Wire
pub mod BackendConnection
pub mod BackendMessages
pub mod Process
pub mod Page
pub mod Protocol
pub mod ClientProtocol
pub mod Database
pub mod Auth
pub mod Users
pub mod Environment
pub mod Conversations
pub mod Logging
pub mod Messages
pub mod Config
pub mod Sessions
pub mod Gateway
pub mod ChatServer
pub mod ChatState
pub mod ServerProtocol
pub mod System
pub mod Transport
pub mod Provider
