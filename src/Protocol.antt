-- ===== src/Protocol.antt =====
-- The messages of hypercore-protocol that the replicator sends and receives, with the fields that
-- it reads or writes.
use hyperspace_rs.Base.{ℕ, Bool, List, Option, Bytes}

pub record Have : Type 0 where
  pub start : ℕ
  pub length : Option ℕ
  pub bitfield : Option Bytes
  pub ack : Option Bool

pub record Want : Type 0 where
  pub start : ℕ
  pub length : Option ℕ

pub record Request : Type 0 where
  pub index : ℕ
  pub bytes : Option ℕ
  pub hash : Option Bool
  pub nodes : Option ℕ

pub record DataNode : Type 0 where
  pub index : ℕ
  pub hash : Bytes
  pub size : ℕ

pub record Data : Type 0 where
  pub index : ℕ
  pub value : Option Bytes
  pub nodes : List DataNode
  pub signature : Option Bytes

pub data Message : Type 0 where
  open_feed : Message
  want : Want → Message
  have : Have → Message
  request : Request → Message
  block : Data → Message
  other : Message
