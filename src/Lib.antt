-- ===== src/Lib.antt =====
-- Verification of legio, a peer-to-peer overlay network over WebRTC data channels.
--
-- The program's parts. Each node signs its messages with an ECDSA key; its public key is its
-- identifier. A node announces its state, the set of its neighbours, in State messages; the graph of
-- all announced states gives a table of next hops, by which messages are routed over the channels to
-- the neighbours. A message for one destination has a body that is encrypted for that node's ECDH key.
--
-- Which file models what (paths from the repository's root):
-- - Prelude: shared helpers. Prelude/Lists and Tests for lists and Boolean tests on native numbers,
--   Maps for unordered_map and set as lists (the order of the list is the order of iteration), Results
--   for calls that throw, Bits for bitwise operations, Int for signed int.
-- - ByteOrder: src/utils.cpp. The byte order of the machine is an argument.
-- - Binary/Stream, Strings, Hex, Base64, Xor, Text: src/binary.cpp and include/legio/binary.hpp. Bytes
--   are numbers; that they are below 256 is a hypothesis where it matters. Binary/Base64/Alphabet and
--   Groups: the characters, and the bits of a group.
-- - Crypto: the wrappers in src/impl/ecdsa.cpp, ecdh.cpp, aesgcm.cpp, sha.cpp and identifier.cpp.
--   Crypto++ is a parameter, the record CryptoPp, and what is relied on is the record CryptoLaws;
--   Crypto/Sample shows that they can hold. What the random pool yields is an argument.
-- - Message, Message/Codec, Authentic, Sequence: struct Message and compare_sequence of
--   src/impl/message.hpp and message.cpp. Cipher: CipherBody of the same files.
-- - State: src/impl/state.cpp. A std::set of identifiers is the ascending list of its members.
-- - RoutingTable: src/impl/routingtable.cpp.
-- - Routing: src/impl/routing.cpp and events.hpp. A channel is a number that stands for its address;
--   what the WebRTC library says of the channels is the record Channels. The calls of handlers by
--   emit are the list of emitted events, the writes to channels the list of channel and bytes.
-- - Graph: the vertices of src/impl/graph.hpp; Graph/Edges: get, nodes and updateEdges of graph.cpp;
--   Graph/Paths: its computeRoutingTable, with the priority queue as an ordered list. A shared_ptr to a
--   vertex is the vertex's identifier. Graph/World: the members of Graph and of the Routing that it
--   calls, and the outcomes of a call; Graph/Updates: the constructor, insert, updateVertice,
--   broadcastState, broadcastHello and notify over these. An event that Routing emits is handled at once.
-- - Transport: src/impl/transport.cpp and broadcastabletransport.cpp; what the callback is handed is a
--   result, what the graph knows of the receiver an argument.
-- - Scheduler: src/impl/scheduler.hpp and scheduler.cpp; the time is an argument. Scheduler/Run: its
--   run and runOne, with what a task does to the scheduler as a parameter.
-- - Peering: src/impl/peering.cpp. The WebRTC library's descriptions are the record WebRtc, its calls
--   the list of calls made; each callback that it is given is a function.
-- - Networking: src/impl/networking.cpp, with the routing that its peerings share; Networking/Described:
--   what it makes of a description; Networking/Steps: its calls and callbacks as a step relation. The
--   shuffle and the new channels are parameters.
-- - Server: src/impl/server.cpp and include/legio/configuration.hpp; what the libraries for port mapping
--   and WebSockets answer is the record Services.
-- - Node: src/impl/node.cpp; the components are numbers that stand for their addresses. Node/Receive:
--   what bytes that arrive do to the graph alone, from the callback that Routing::addChannel gives the
--   channel over route to the graph's share of the event; Node/Accepted, Trust, Room: its proofs.
-- - Node/Dispatch: the whole node, the members of all components side by side (NodeState), the dispatch
--   of Node::notify to the graph, the transport of Networking and the user's transport, in the order in
--   which they are attached, the callback of a channel (receive_data), and send, broadcast and onMessage
--   of src/node.cpp. Node/Life: the constructor, update, and the callbacks of the library on this state.
--   What runs after a throw is what the code runs; a null pointer that is used ends in `undefined`.
-- - Node/Handled, Spared, Delivered, Authentic, Again, Aside, Whole: what bytes that arrive do to the
--   user's program and to the graph. Node/Delivery and Broadcast: two nodes, what one sends and the
--   other is handed. Node/Signals: what the peerings send, over the transport of Networking;
--   Node/Sealed, Taken, Signaled: its way to the library of another node. Node/Kept, Opened, Emitted,
--   Sent, Steps, Constructed, Reached: the calls and callbacks as a step relation on the node's states.
--   Node/Connect: the texts that connect takes.
-- - Node/Connecting: connect, id and isConnected on the state of the whole node. Peer: src/peer/main.cpp.
-- - Examples: the theorems at concrete inputs.
--
-- Fuel. from_base64 has a loop that can fail to end, so its model takes rounds: five more than there
-- are bytes are enough for what an encoder wrote. The loop of computeRoutingTable takes rounds: one
-- more than the local vertex has edges is enough. read_ids of State takes the size of the body,
-- which is enough, since each round reads 33 bytes (State/Rounds). broadcastState and updateVertice
-- call one another and take rounds: one is enough on a graph that is ready, and the constructor
-- leaves such a graph. The loop of run takes rounds: one more than there are tasks is enough if no
-- task adds any. The loop of the peer program has no end, and its model looks at a number of turns of
-- it. Sizes of vectors are bounded by max_size, 2^63 - 1.
-- Where the code counts in int, the model answers none, overflow or undefined for what an int of 32
-- bits cannot count: to_hex, from_hex, to_base64_impl and from_base64_impl, and the numbers of tasks.
--
-- Not modelled: locks, since each modelled operation holds one for its whole body; log output;
-- destructors; the generation of keys; the template helpers of include/legio/utils.hpp.
pub mod Prelude
pub mod ByteOrder
pub mod Binary
pub mod Crypto
pub mod Message
pub mod Cipher
pub mod State
pub mod RoutingTable
pub mod Routing
pub mod Graph
pub mod Transport
pub mod Scheduler
pub mod Peering
pub mod Networking
pub mod Server
pub mod Node
pub mod Peer
pub mod Examples
