-- ===== src/RemoteCore.antt =====
-- client/src/session.rs: `RemoteCorestore` and `RemoteHypercore`. The cores are shared by
-- reference, so the state holds them in a store, and a core is known by its place there. What the
-- remote end answers is a parameter.
pub mod Methods
pub mod Sessions
pub mod Cores
pub mod Once
pub mod Linked
pub mod Events
mod Tests
use hyperspace_rs.Base
use hyperspace_rs.Base.{
  ℕ, List, [], ◌∷◌, Option, none, Bool, false, Bytes, Result, Fault, Subscriber,
}
use hyperspace_rs.FreeMap.{InnerMap}

pub data HypercoreEvent : Type 0 where
  append : HypercoreEvent
  download : ℕ → HypercoreEvent

pub record OpenRequest : Type 0 where
  pub id : ℕ
  pub key : Option Bytes
  pub name : Option Bytes

pub record OpenResponse : Type 0 where
  pub key : Bytes
  pub length : ℕ
  pub byte_length : ℕ
  pub writable : Bool

pub record AppendRequest : Type 0 where
  pub id : ℕ
  pub blocks : List Bytes

pub record AppendResponse : Type 0 where
  pub length : ℕ
  pub byte_length : ℕ

pub record GetRequest : Type 0 where
  pub id : ℕ
  pub seq : ℕ
  pub resource_id : ℕ

pub record SeekRequest : Type 0 where
  pub id : ℕ
  pub byte_offset : ℕ

pub record SeekResponse : Type 0 where
  pub seq : ℕ
  pub block_offset : ℕ

-- The remote end, as `Client` reaches it, and `hex::encode`.
pub record Remote : Type 1 where
  pub Error : Type 0
  pub State : Type 0
  pub open_feed : OpenRequest → State → Result Error OpenResponse × State
  pub append : AppendRequest → State → Result Error AppendResponse × State
  pub get : GetRequest → State → Result Error (Option Bytes) × State
  pub seek : SeekRequest → State → Result Error SeekResponse × State
  pub hex : Bytes → Bytes

pub record InnerHypercore : Type 0 where
  pub id : ℕ
  pub name : Option Bytes
  pub key : Option Bytes
  pub length : ℕ
  pub byte_length : ℕ
  pub writable : Bool
  pub is_open : Bool
  pub listeners : List (Subscriber HypercoreEvent)

-- The client: its sessions, the cores that they refer to, the counter that the cores share, and
-- the remote end.
pub record Client (R : Remote) : Type 0 where
  pub sessions : InnerMap Bytes ℕ
  pub cores : List InnerHypercore
  pub resource_counter : ℕ
  pub remote : R.State

abbrev pub Method : Remote → Type 0 → Type 0
Method R A = Base.Action (Client R) R.Error A

-- `..Default::default()` with the key and the name
abbrev pub default_core : Option Bytes → Option Bytes → InnerHypercore
default_core key name = record {
  id = 0;
  name = name;
  key = key;
  length = 0;
  byte_length = 0;
  writable = false;
  is_open = false;
  listeners = [];
}
