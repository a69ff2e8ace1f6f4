-- ===== src/Peer.antt =====
-- replicator/src/peer.rs: one peer's channel of one feed. A handler runs to its end under the
-- feed's lock, so it is a step on the peer's state.
pub mod Handlers
pub mod Requests
pub mod Announce
pub mod Blocks
pub mod Sync
pub mod Counting
pub mod Counts
mod Tests
use hyperspace_rs.Base
use hyperspace_rs.Base.{
  ℕ, zero, suc, ◌+◌, ◌-◌, ◌*◌, ◌/◌, ◌≡◌, ap, List, [], ◌∷◌, ◌++◌, map, Option, none, some, Bool,
  true, false, not, ltb, if◌then◌else◌, length, range_from, add64, sub64, Bytes, Result, ok, err,
  ◌&&◌, Fault, lift_fault,
}
use hyperspace_rs.Hypercore.{Hypercore, Proof}
use hyperspace_rs.Protocol.{
  Have, Want, Request, Data, DataNode, Message, open_feed, want, have, request, block, other,
}

pub record Stats : Type 0 where
  pub id : Bytes
  pub downloaded_blocks : ℕ
  pub downloaded_bytes : ℕ
  pub uploaded_blocks : ℕ
  pub uploaded_bytes : ℕ

unfoldable pub add_downloaded : Stats → ℕ → ℕ → Stats
add_downloaded s blocks bytes = record s {
  downloaded_blocks = add64 s.downloaded_blocks blocks;
  downloaded_bytes = add64 s.downloaded_bytes bytes;
}

unfoldable pub add_uploaded : Stats → ℕ → ℕ → Stats
add_uploaded s blocks bytes = record s {
  uploaded_blocks = add64 s.uploaded_blocks blocks;
  uploaded_bytes = add64 s.uploaded_bytes bytes;
}

-- A channel: what was sent, and whether the connection takes the next message.
pub record Channel (E : Type 0) : Type 0 where
  pub sent : List Message
  pub link : List Message → Message → Option E
  pub receiver : Bool

pub record Peer (H : Hypercore) : Type 0 where
  pub channel : Channel H.Error
  pub feed : H.Feed
  pub uploading : Bool
  pub downloading : Bool
  pub remote_want : Bool
  pub remote_ack : Bool
  pub remote_length : ℕ
  pub want_bitfield : H.Bitfield
  pub remote_bitfield : H.Bitfield
  pub stats : Stats

-- An event of the feed or a message of the channel, as `run` merges them.
pub data FeedEvent : Type 0 where
  download : ℕ → FeedEvent
  append other_event : FeedEvent

pub data Event : Type 0 where
  feed_event : FeedEvent → Event
  message : Message → Event

-- A method of a peer.
abbrev pub Action : Hypercore → Type 0 → Type 0
Action H A = Base.Action (Peer H) H.Error A

module _ {H : Hypercore} where
  open H use {Error, Feed}

  unfoldable pub new : Feed → Channel Error → Stats → Peer H
  new feed channel stats = record {
    channel = channel;
    feed = feed;
    uploading = false;
    downloading = false;
    remote_want = false;
    remote_ack = false;
    remote_length = 0;
    want_bitfield = H.bitfield_new;
    remote_bitfield = H.bitfield_new;
    stats = stats;
  }

  -- A call that changes the feed.
  abbrev pub on_feed : {A : Type 0} → (Feed → Result H.Error A × Feed) → Action H A
  on_feed f p = let (r, feed) = f p.feed in (lift_fault r, record p { feed = feed })

  pub on_feed-eq :
      {A : Type 0} (f : Feed → Result H.Error A × Feed) (p : Peer H) {r : Result H.Error A}
      {feed : Feed}
      → f p.feed ≡ (r, feed)
      → on_feed f p ≡ (lift_fault r, record p { feed = feed })
  on_feed-eq f p e = ap (λ x. (lift_fault x.0, record p { feed = x.1 })) e
