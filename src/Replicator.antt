-- ===== src/Replicator.antt =====
-- replicator/src/lib.rs, and `PeeredFeed` of replicator/src/peer.rs: the feeds that are replicated,
-- and what one connection does. A task that is spawned is an entry in a list.
pub mod Connection
pub mod Feeds
pub mod Opened
mod Tests
use hyperspace_rs.Base.Maps
use hyperspace_rs.Base.{
  ℕ, List, [], ◌∷◌, ◌++◌, map, Bytes, HashMap, bytes_discrete, Subscriber, tell_all, length, true,
  suc, Bool, Result, ok,
}
use hyperspace_rs.FeedMap.{FeedApi}

pub data ReplicatorEvent : Type 0 where
  feed : Bytes → ReplicatorEvent
  discovery_key : Bytes → ReplicatorEvent

-- A feed, with the remote public key of each peer that was added.
pub record PeeredFeed (A : FeedApi) : Type 0 where
  pub feed : A.Feed
  pub peers : List Bytes

pub record Replicator (A : FeedApi) : Type 0 where
  pub feeds : HashMap Bytes (PeeredFeed A)
  pub subscribers : List (Subscriber ReplicatorEvent)
  -- a task for each connection, known by whether we are the initiator
  pub tasks : List Bool

module _ {A : FeedApi} where
  -- `PeeredFeed::new`
  abbrev pub new_peered : A.Feed → PeeredFeed A
  new_peered f = record { feed = f; peers = [] }

  unfoldable pub add_peer : PeeredFeed A → Bytes → PeeredFeed A
  add_peer p id = record p { peers = p.peers ++ id ∷ [] }

  unfoldable pub new : Replicator A
  new = record { feeds = []; subscribers = []; tasks = [] }

  unfoldable pub emit : Replicator A → ReplicatorEvent → Replicator A
  emit r event = record r { subscribers = tell_all event r.subscribers }

  unfoldable pub add_feed : Replicator A → A.Feed → Replicator A
  add_feed r f =
      let dkey = A.discovery_key (A.public_key f) in
      let feeds = Maps.insert bytes_discrete dkey (new_peered f) r.feeds in
      emit (record r { feeds = feeds }) (feed dkey)

  -- The new subscriber's place in the list stands for the receiver.
  unfoldable pub subscribe : Replicator A → Replicator A × ℕ
  subscribe r =
      let new : Subscriber ReplicatorEvent = record { connected = true; events = [] } in
      (record r { subscribers = r.subscribers ++ new ∷ [] }, length r.subscribers)

  -- `add_stream` and `add_io`, which make a protocol of the stream or of its two halves: its loop
  -- `run_peer` is spawned.
  unfoldable pub add_stream : Replicator A → Bool → Replicator A
  add_stream r is_initiator = record r { tasks = r.tasks ++ is_initiator ∷ [] }

  unfoldable pub add_io : Replicator A → Bool → Replicator A
  add_io r is_initiator = record r { tasks = r.tasks ++ is_initiator ∷ [] }

-- What the first `n` of the peers of a feed have, each at its place.
abbrev pub for_peers : {X : Type 0} → (ℕ → X) → List Bytes → List X
for_peers at [] = []
for_peers at (id ∷ ids) = at 0 ∷ for_peers (λ i. at (suc i)) ids

module _ {A : FeedApi} where
  -- `stats`: what the peers' statistics hold, by the feed and the peer's place, at the time.
  unfoldable pub stats :
      {Stats : Type 0} → (Bytes → ℕ → Stats) → Replicator A → List (Bytes × List Stats)
  stats locked r = map (λ e. (e.0, for_peers (locked e.0) e.1.peers)) r.feeds

  -- `join_all`: how the tasks that it waits for end, which are those of the peers of each feed, and
  -- its answer, which is not theirs.
  unfoldable pub join_all :
      {E : Type 0}
      → (Bytes → ℕ → Result E (Unit {0}))
      → Replicator A
      → List (List (Result E (Unit {0}))) × Result E (Unit {0})
  join_all ends r = (map (λ e. for_peers (ends e.0) e.1.peers) r.feeds, ok tt)
