-- ===== src/Lib.antt =====
-- Verification of the node: how topic paths are read, compared and taken apart, how the trie finds
-- the handlers registered under a path, what the registry makes of it, and how nodes reach each
-- other: the QUIC transport, the capabilities that peers announce, and requests between nodes.
--
-- The parts and their files:
-- * Base, Text: shared lemmas on lists, results, association lists, and the operations of `str`.
--   Base/Calls has the calls that change a state and may fail; what a failed call did is kept.
-- * Topic (src/routing/mod.rs): `TopicPath` and its operations. Topic/Segment is `PathSegment`,
--   Topic/Bitmap the packed kinds of segments, Topic/Family `child` and `parent`, Topic/Identity
--   equality and hashing, Topic/Template and Topic/Matching the operations on templates and the
--   test of a pattern against a path. Topic/Scanning, Parse, Pieces, Reprint and Consistent are
--   about `TopicPath::new`.
-- * Trie (src/routing/path_registry.rs): `PathTrie`. Trie/Search and Trie/Removal have its other
--   operations; Trie/Entries says what a trie holds, with no structure, and Insert, Lookup, Contents,
--   Remove, RemoveValues, RemoveHandler, Routing, Picking and Selection are stated by it.
-- * Registry (src/services/service_registry.rs): the handlers and subscriptions of a node, kept in
--   tries of lists. Registry/Subscriptions and Registry/LocalEvents are the event subscriptions, and
--   Registry/Routes says what a request finds. Handlers, callbacks and metadata are parameters.
-- * Balancing (src/services/load_balancing.rs): the round-robin choice of a remote handler.
-- * Requests (src/node.rs): which handler `Node::request` runs, from the registry and the balancer.
-- * Network (src/network/transport/mod.rs, src/network/discovery/mod.rs): peers and messages as data.
-- * Peers (src/network/transport/peer_registry.rs): the registry of peers and its clean-up.
-- * Connections (src/network/transport/stream_pool.rs, peer_state.rs, connection_pool.rs): the streams
--   and connections of peers. quinn is a parameter: each operation takes what the call gives.
-- * Transport (src/network/transport/quic_transport.rs): Frames is how a message is put on a stream
--   and read back, Quic the transport's state, starting, stopping and sending, Connecting the
--   addresses, the handshake and what arrives. Failing, Sending, Untouched, Ready and Progress are
--   what these leave as it was; Reachable and Incoming are about sequences of operations.
-- * Peering (src/services/remote_service.rs, src/node.rs): a remote service for each service that a
--   peer announces. Peering/Known is `process_remote_capabilities`, which keeps the known peers;
--   Announced, Renamed and Routed say what announcements do, and what requests find afterwards.
-- * Messages (src/node.rs, src/services/remote_service.rs): how a node answers the requests of
--   others. Messages/Pending is the side that asks and waits. Values, their serialiser and what a
--   handler gives are parameters.
-- * Events (src/node.rs): subscribing, and the callbacks that an event runs, published here or by
--   another node.
-- * Lifecycle (src/node.rs, src/services/service_registry.rs): adding services, starting and stopping
--   them. What a service does when it is called is a parameter, which may change the registry only.
-- * Discovery (src/network/discovery/memory_discovery.rs): the nodes that are announced in memory, with
--   a round of the task that announces as an operation of its own.
--
-- A `HashMap` is an association list, or the list of a node's children, with distinct keys. The order
-- in which Rust walks a map is not specified; what depends on it is stated up to order. An index into
-- a slice that only grows by one is the rest of the list. The loop that reads a message's body runs on
-- fuel, the length that was announced: each chunk takes at least a byte, and quinn gives no more than
-- it is asked for. All other recursion is
-- structural. A `Result<_, String>` is a result with a constructor for each error. `DefaultHasher` of the
-- standard library is a parameter: any function from the sequence of writes to a number.
--
-- The subtraction in the loop over a body wraps in the model, as it does in a build without overflow
-- checks.
--
-- The bitmap is a `u64` with two bits for a segment: a shift past 64 bits wraps as it does in a build
-- without overflow checks, and the theorems that read it ask for at most 32 segments.
--
-- A lock guards each field of the registry and of the transport; an operation of the model runs with
-- no other in between. A call that waits for ever is an outcome of its own.
--
-- Not modelled: logging, sockets, TLS, timers and the tasks that accept connections, which only call
-- other crates; the metadata of all services; discovery by multicast; the contexts of handlers; the
-- set-up and end of a node's networking, and the node info.
pub mod Base
pub mod Text
pub mod Topic
pub mod Trie
pub mod Balancing
pub mod Connections
pub mod Discovery
pub mod Events
pub mod Lifecycle
pub mod Messages
pub mod Network
pub mod Peering
pub mod Peers
pub mod Registry
pub mod Requests
pub mod Transport
