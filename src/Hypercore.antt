-- ===== src/Hypercore.antt =====
-- The crates hypercore, sparse-bitfield, bitfield-rle and ed25519-dalek, which the replicator
-- calls: a record of the operations that it uses. The laws that a theorem relies on are stated
-- where it is.
use hyperspace_rs.Base.{ℕ, Bool, List, Option, Bytes, Result}

pub record Proof (Node Signature : Type 0) : Type 0 where
  pub index : ℕ
  pub nodes : List Node
  pub signature : Option Signature

pub record Hypercore : Type 1 where
  pub Error : Type 0
  -- `hypercore::Feed`
  pub Feed : Type 0
  pub len : Feed → ℕ
  pub has : Feed → ℕ → Bool
  -- `feed.bitfield().compress(start, length)`
  pub compress : Feed → ℕ → ℕ → Result Error Bytes
  -- `hypercore::{Node, Signature}`
  pub Node : Type 0
  pub node_new : ℕ → Bytes → ℕ → Node
  pub node_index : Node → ℕ
  pub node_hash : Node → Bytes
  pub node_len : Node → ℕ
  pub Signature : Type 0
  pub signature_of : Bytes → Result Error Signature
  pub to_bytes : Signature → Bytes
  -- These take the feed by `&mut`.
  pub get : Feed → ℕ → Result Error (Option Bytes) × Feed
  pub proof : Feed → ℕ → Result Error (Proof Node Signature) × Feed
  pub put : Feed → ℕ → Option Bytes → Proof Node Signature → Result Error (Unit {0}) × Feed
  -- `hypercore::bitfield::Bitfield`
  pub Bitfield : Type 0
  pub bitfield_new : Bitfield
  pub bitfield_set : Bitfield → ℕ → Bool → Bitfield
  -- `bitfield_rle::decode` and `sparse_bitfield::Bitfield`
  pub rle_decode : Bytes → Option Bytes
  pub Sparse : Type 0
  pub sparse_new : ℕ → Sparse
  pub set_byte : Sparse → ℕ → ℕ → Sparse
  pub bits : Sparse → List Bool
