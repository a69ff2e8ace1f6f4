-- ===== src/Session.antt =====
-- server/src/rpc/session.rs: what one client's session of the server does. The feeds are those of
-- the corestore; what reading and appending does to them is a parameter.
pub mod Handlers
pub mod Opening
pub mod Appending
mod Tests
use hyperspace_rs.Base
use hyperspace_rs.Base.{ℕ, List, Option, Bool, Bytes, Result, HashMap}
use hyperspace_rs.Corestore.{Env, World}

-- `hypercore::Feed` behind its lock: the store holds what the feeds hold.
pub record Feeds (V : Env) : Type 1 where
  pub Store : Type 0
  pub len : V.api.Feed → Store → ℕ
  pub byte_len : V.api.Feed → Store → ℕ
  pub writable : V.api.Feed → Store → Bool
  pub get : V.api.Feed → ℕ → Store → Result V.Error (Option Bytes) × Store
  pub append : V.api.Feed → Bytes → Store → Result V.Error (Unit {0}) × Store

-- `io::Error`, by its cause.
pub data IoError (E : Type 0) : Type 0 where
  other : E → IoError E
  bad_id invalid_key_length invalid_parameters : IoError E

-- An event of a feed, as `notify_loop` reads it.
pub data FeedEvent : Type 0 where
  append : FeedEvent
  download : ℕ → FeedEvent
  other_event : FeedEvent

pub record AppendEvent : Type 0 where
  pub id : ℕ
  pub length : ℕ
  pub byte_length : ℕ

pub record DownloadEvent : Type 0 where
  pub id : ℕ
  pub seq : ℕ
  pub byte_length : Option ℕ

-- A call of the client.
pub data Notification : Type 0 where
  on_append : AppendEvent → Notification
  on_download : DownloadEvent → Notification

pub record OpenRequest : Type 0 where
  pub id : ℕ
  pub key : Option Bytes
  pub name : Option Bytes

pub record OpenResponse : Type 0 where
  pub key : Bytes
  pub length : ℕ
  pub byte_length : ℕ
  pub writable : Bool

pub record AppendResponse : Type 0 where
  pub length : ℕ
  pub byte_length : ℕ
  pub seq : ℕ

-- The corestore and the feeds that the session shares with others, the feed of each id, and the
-- notify tasks that were spawned.
pub record Session (V : Env) (F : Feeds V) : Type 0 where
  pub corestore : World V
  pub store : F.Store
  pub cores : HashMap ℕ V.api.Feed
  pub tasks : List (ℕ × V.api.Feed)

abbrev pub Handler : (V : Env) → Feeds V → Type 0 → Type 0
Handler V F A = Base.Action (Session V F) (IoError V.Error) A
