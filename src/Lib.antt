-- ===== src/Lib.antt =====
-- REPRAM, the node in TypeScript: a store that forgets, replicated over a gossip network.
--
-- A node holds values in memory, each with a time to live (repram-mcp/src/node/storage.ts). A write
-- is kept locally and sent to the peers of the node's enclave, and settles with 201 when a quorum of
-- ACKs has come in and with 202 at a timeout (cluster.ts). Peers are learned, pinged and forgotten by
-- the gossip protocol (gossip.ts), which also drops messages it has seen and chooses whom to send to.
-- A node that cannot be reached attaches to one that can over a WebSocket, and its writes and their
-- ACKs go over that connection (tree.ts). The HTTP server (server.ts) is the API for clients and the
-- entrance for gossip; requests are limited for each address (middleware.ts) and gossip is signed
-- (auth.ts). A node that starts asks seeds for peers (bootstrap.ts, ../index.ts). Programs use a node
-- through a client, in process or over HTTP (../client.ts), and language models through the tools
-- of ../tools.ts. All paths below are in repram-mcp/src/node, and those with ../ in repram-mcp/src.
--
-- - Common: lists and strings over native numbers, tests, and Common/JsMap for `Map<string, V>`.
-- - Storage, storage.ts: MemoryStore. Accounting is about its counter and capacity, Reads about one
--   operation after another, History about any number of them.
-- - Wire, types.ts and transport.ts: messages, `messageToWire` and `wireToMessage`.
-- - Transport, transport.ts: `HTTPTransport`.
-- - Fanout, gossip.ts: `fanoutSize` and `selectRandomPeers`.
-- - Seen, gossip.ts: `markSeen`, `evictSeen` and `cleanupSeenMessages`.
-- - Gossip, gossip.ts: `GossipProtocol` with `handleMessage` and what it calls; Gossip/Broadcast for
--   `broadcastToEnclave`, `forwardToEnclave`, `send`, `broadcast` and `performTopologySync`;
--   Gossip/Health for `pingPeers`, Gossip/Intervals for `start` and `stop`.
-- - Tree, tree.ts: `TreeManager`; Tree/Attach for `attach` and `reattachToAlternative`.
-- - Cluster, cluster.ts: `ClusterNode` and `put` (named `write` here); Cluster/Receive for
--   `handlePutMessage`, `handleRelayPut` and `handleGossipMessage`, Cluster/Setup for its constructor
--   and the calls that it passes on. Cluster/Writes follows one
--   write, Cluster/Settling all writes of a node.
-- - Auth, auth.ts: `signBody` and `verifyBody`.
-- - RateLimit, middleware.ts: `RateLimiter`.
-- - Screening, middleware.ts: `getClientIP`, `isScannerRequest` and `SecurityMiddleware.check`.
-- - Server, server.ts: `readBody` and `verifySignature`; Server/Keys for `keysHandler` and
--   `binarySearch`, Server/Puts for `putHandler` and `getHandler`, Server/Peers for `gossipHandler`
--   and `bootstrapHandler`. Server/Config is `loadConfig`, Server/Router `handleRequest`,
--   Server/Upgrade the listeners of accepted connections, with `setupParentRouting` of ../index.ts,
--   Server/Start the constructors, `handleUpgrade` and the reports, Server/Lifecycle `stop`.
-- - WebSocket, ws-transport.ts: `WebSocketConnection` and its lifecycle, with WebSocket/Heartbeat
--   about its heartbeat and WebSocket/Closing about what it does once closed; WebSocket/Frames for
--   `sendAttachmentMessage` and `handleRawMessage`, WebSocket/Connect for `connectToSubstrate`.
-- - Bootstrap, bootstrap.ts: `resolveBootstrapDNS` and `bootstrapFromPeers`; Bootstrap/Notify for
--   `notifyPeerAboutNewNode`, Bootstrap/Startup for `bootstrap` and `attachToSubstrate` of
--   ../index.ts.
-- - Client, ../client.ts: `InProcessClient` (local) and `RepramClient` (http); Client/Tools for
--   `handleToolCall` of ../tools.ts.
-- - Network: several nodes. Network/Replication is about a writer, its peers and the ACKs between
--   them, Network/Relayed about a writer behind a parent, Network/Post about a message that is
--   posted to a node over HTTP.
-- - Tests: examples, on concrete data.
--
-- State is a record that each operation takes and returns. The clock is an argument, in
-- milliseconds; so are random draws, as a function from the index to what is drawn for it. What an
-- operation sends is a list of sends or effects, in the order of the source, and a promise is known
-- by a number and settles as an effect. An operation that throws returns a value that says so.
-- Connections are numbers with their objects in one store, because several fields of a node may name
-- the same connection. A string is the list of its UTF-16 code units.
--
-- `binarySearch` runs on fuel, one round more than there are keys, since every round brings its bounds
-- closer together. The square root in `fanoutSize` is counted up, in as many rounds as there are
-- peers, since the square of a number is at least the number.
--
-- Not under the repository's control, and parameters here: Base64, UTF-8, HMAC and hexadecimal coding
-- (Wire.Base64, Client.Utf8, Auth.Crypto), JSON (Frames.Json and functions), `new URL`,
-- `decodeURIComponent`, `parseInt`, `toLowerCase` and the splitting of headers and lists, `fetch`,
-- DNS, the socket of the ws package, and the product of floats in the rate limiter
-- (RateLimit.Floats, at most the exact product). The JSON of a frame is read as it was written, and
-- `encodeURIComponent` is undone by `decodeURIComponent`, as hypotheses where they are needed; a
-- payload of a gossip frame is taken to have the fields of a wire message, or to be one on which
-- `wireToMessage` throws.
--
-- Not modelled: log lines, metrics and response headers; the interval that the store's constructor
-- sets, whose callback is modelled; the status report, which is figures of the process;
-- the base URL of the HTTP client, and what its `fetch` does to the path of a key; logger.ts; the
-- entry points of ../index.ts, which wire the MCP library, the process and its signals; the tool
-- descriptions; and the page of web/.
mod Common
pub mod Storage
pub mod Wire
pub mod Fanout
pub mod Seen
pub mod Auth
pub mod RateLimit
pub mod Screening
pub mod Transport
pub mod Gossip
pub mod Tree
pub mod Server
pub mod Cluster
pub mod Network
pub mod WebSocket
pub mod Bootstrap
pub mod Client
mod Tests
