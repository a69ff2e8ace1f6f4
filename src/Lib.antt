-- ===== src/Lib.antt =====
-- A model of hyperspace-rs: a server that keeps hypercore feeds in a corestore and replicates them
-- with peers, and a client that reads and writes feeds over a socket.
--
-- The parts, each a module that bears its name, and the code it is about:
--
--   Peer          replicator/src/peer.rs: `Peer`, one channel of one feed. A handler runs to its end
--                 under the lock of the feed, so each is a step on the state of the peer: `on_have`,
--                 `on_want`, `on_request` and `on_data` in Peer/Handlers, and the loop `run`.
--   Replicator    replicator/src/lib.rs, and `PeeredFeed`: the feeds, the subscribers, and the loop
--                 of one connection (`run_peer`, in Replicator/Connection), where changes that other
--                 tasks make to the shared replicator come between the events.
--   FeedMap       corestore/src/feed_map.rs
--   Corestore     corestore/src/corestore.rs: `InnerCorestore`, the methods in Corestore/Methods and
--                 those that open a feed in Corestore/Opening; `Corestore`, which tasks share under a
--                 lock, in Corestore/Shared.
--   Replication   corestore/src/replicate.rs: `replicate_corestore`, on the two parts above.
--   Session       server/src/rpc/session.rs: the handlers of one client's session, on the corestore.
--   FreeMap       client/src/freemap.rs: the client's sessions with their ids and names.
--   RemoteCore    client/src/session.rs: `RemoteCorestore` (RemoteCore/Sessions) and
--                 `RemoteHypercore` (RemoteCore/Methods). The cores are shared by reference: the
--                 state holds them in a list, and a reference is a place in it.
--   EndToEnd      server/src/rpc/mod.rs, and `Session::new`: the client of RemoteCore on the server's
--                 Session, which is the remote end that RemoteCore takes as a parameter.
--   Server        common/src/lib.rs and server/src: `accept` (Server/Socket), the network loop
--                 (Server/Network), and how a server starts (Server/Listen). Server/Unordered forgets
--                 the order in which a hash map lists its feeds.
--   ReadStream    client/src/stream.rs: the stream of a core's blocks.
--   ByteStream    client/src/stream.rs: reading and seeking in a core's bytes.
--   ClientBin     client/src/bin.rs: opening a core, and the commands read (ClientBin/Reading) and
--                 write, on RemoteCore and ReadStream.
--
-- Base holds what they share: numbers, lists, hash maps as association lists (Base/Maps), the methods
-- that change a state and can fail or panic (Base/Actions), and the subscribers of events
-- (Base/Subscribers). Hypercore and Protocol are the types of the crates that the replicator calls.
--
-- How the code is read: an async method is a function on the state that it locks, which gives a
-- result and the state after it; `?` ends it with an error, an `unwrap` that fails ends it with a
-- panic, and what was done before stays done. A channel or a connection keeps what was sent. A u64 is
-- a number with its wrap-around (`add64`), as in a release build. The order of the entries of a map
-- stands for the unspecified order of iteration. The future of a stream is known by what it was
-- called with, and what polling it answers is an argument.
--
-- What is not under the repository is a parameter: hypercore and its proofs, the bitfields, the disk,
-- the ciphers and the random keys, the remote end of the socket. What a theorem assumes of them is
-- among its hypotheses, and the tests (a module Tests for each part) instantiate them.
--
-- Fuel: the loop of `ByteStream.poll_read` is given three rounds, which are enough since it goes on
-- from two states only and never back; the reader of ByteStream/Whole is given more rounds than there
-- are bytes.
--
-- The ids of a client's sessions are u64 and the messages carry u32: what is shown of a client holds
-- for fewer than 2^32 calls.
--
-- Not modelled: how hrpc, the Unix sockets and hyperswarm carry bytes (a request reaches the handler
-- and its answer the client, one at a time; the listener and the swarm give events); parsing the
-- command line; logging; the generated messages; client/src/lib.rs and the example; the wait of a
-- bounded channel for a slow subscriber; events that arrive while a client's call is under way.
pub mod Base
pub mod FreeMap
pub mod FeedMap
pub mod Hypercore
pub mod Protocol
pub mod Peer
pub mod RemoteCore
pub mod ReadStream
pub mod ByteStream
pub mod Corestore
pub mod Replicator
pub mod Session
pub mod Replication
pub mod EndToEnd
pub mod ClientBin
pub mod Server
