-- ===== src/Replicator/Connection.antt =====
-- `run_peer`: the loop of one connection.
use hyperspace_rs.Base.Maps
use hyperspace_rs.Base.{
  Bool, if◌then◌else◌, List, [], ◌∷◌, ◌++◌, map, Option, none, some, Bytes, bytes_discrete, ok, err,
  Action, unwrap, pure, modify, gets, ◌>>=◌, ◌>>◌, failed,
}
use hyperspace_rs.FeedMap.{FeedApi}
use hyperspace_rs.Replicator.{
  Replicator, PeeredFeed, ReplicatorEvent, feed, discovery_key, add_peer, emit,
}

-- `Event`, with the events of the protocol that the loop looks at.
pub data Event (E : Type 0) : Type 0 where
  handshake : Bytes → Event E
  channel : Bytes → Event E
  remote_discovery_key : Bytes → Event E
  other_protocol : Event E
  replicator_event : ReplicatorEvent → Event E
  error : E → Event E

-- A connection: the replicator, the remote's public key once it is known, the keys for which a
-- channel was opened, and whether the protocol still takes commands.
pub record Connection (A : FeedApi) : Type 0 where
  pub replicator : Replicator A
  pub remote_public_key : Option Bytes
  pub opened : List Bytes
  pub takes : Bytes → Bool

-- What happens on a connection, one after the other: an event arrives, or another task changes
-- the replicator, which the tasks share.
pub data Happening (A : FeedApi) (E : Type 0) : Type 0 where
  arrives : Event E → Happening A E
  elsewhere : (Replicator A → Replicator A) → Happening A E

abbrev pub Step : FeedApi → Type 0 → Type 0 → Type 0
Step A E B = Action (Connection A) E B

module _ {A : FeedApi} {E : Type 0} where
  -- `proto_command.open(key).await.unwrap()`
  unfoldable pub open_channel : Bytes → Step A E (Unit {0})
  open_channel key c =
      if c.takes key then (ok tt, record c { opened = c.opened ++ key ∷ [] }) else unwrap none c

  unfoldable pub open_all : List Bytes → Step A E (Unit {0})
  open_all [] = pure tt
  open_all (key ∷ keys) = open_channel key >> open_all keys

  unfoldable pub on_handshake : Bytes → Step A E (Unit {0})
  on_handshake key = do
    modify (λ c. record c { remote_public_key = some key })
    keys ← gets (λ c. map (λ e. A.public_key e.1.feed) c.replicator.feeds)
    open_all keys

  -- A channel of a feed that is replicated gets a peer.
  unfoldable pub join : Bytes → Option (PeeredFeed A) → Step A E (Unit {0})
  join dkey none = pure tt
  join dkey (some peered) = do
    remote ← λ c. unwrap c.remote_public_key c
    modify (λ c. record c {
      replicator = record c.replicator {
        feeds = Maps.insert bytes_discrete dkey (add_peer peered remote) c.replicator.feeds;
      };
    })

  unfoldable pub on_channel : Bytes → Step A E (Unit {0})
  on_channel dkey c = join dkey (Maps.get bytes_discrete dkey c.replicator.feeds) c

  -- A new feed is opened once the handshake is done.
  unfoldable pub on_feed : Bytes → Option Bytes → Step A E (Unit {0})
  on_feed key none = pure tt
  on_feed key (some _) = open_channel key

  unfoldable pub on_event : Event E → Step A E (Unit {0})
  on_event (handshake key) c = on_handshake key c
  on_event (channel dkey) c = on_channel dkey c
  on_event (remote_discovery_key dkey) c =
      (ok tt, record c { replicator = emit c.replicator (discovery_key dkey) })
  on_event other_protocol c = (ok tt, c)
  on_event (replicator_event (feed key)) c = on_feed key c.remote_public_key c
  on_event (replicator_event (discovery_key _)) c = (ok tt, c)
  on_event (error e) c = (err (failed e), c)

  unfoldable pub on_happening : Happening A E → Step A E (Unit {0})
  on_happening (arrives event) c = on_event event c
  on_happening (elsewhere f) c = (ok tt, record c { replicator = f c.replicator })

  unfoldable pub run_peer : List (Happening A E) → Step A E (Unit {0})
  run_peer [] = pure tt
  run_peer (h ∷ hs) = on_happening h >> run_peer hs
