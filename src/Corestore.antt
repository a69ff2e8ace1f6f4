-- ===== src/Corestore.antt =====
-- corestore/src/corestore.rs: `InnerCorestore`, whose methods `Corestore` calls under its lock.
pub mod Methods
pub mod Opening
pub mod Prepare
pub mod Publish
pub mod Opened
pub mod Named
pub mod MasterKey
pub mod NameFile
pub mod Restart
pub mod Shared
pub mod Told
pub mod Sample
mod Tests
use hyperspace_rs.Base
use hyperspace_rs.Base.{Subscriber, ℕ, List, [], ◌∷◌, Option, Bool, Bytes, Result, Fault}
use hyperspace_rs.FeedMap.{FeedApi, FeedMap}

-- A path, its components in order.
abbrev pub FilePath : Type 0
FilePath = List Bytes

-- What the corestore calls: hypercore, ed25519-dalek, blake2-rfc, hex, rand and
-- random-access-disk. The disk is what the files hold.
pub record Env : Type 1 where
  pub api : FeedApi
  pub open api use *
  pub Error : Type 0
  pub hex : Bytes → Bytes
  -- `Blake2b::with_key(32, key)`, its `update`s in order, and the digest
  pub blake2b : Bytes → List Bytes → Bytes
  pub SecretKey : Type 0
  pub secret_of : Bytes → Option SecretKey
  pub public_of : SecretKey → Bytes
  -- `PublicKey::from_bytes`
  pub check_public : Bytes → Result Error Bytes
  -- the keys that `generate_key` gives, one after the other
  pub random_key : ℕ → Bytes
  pub Disk : Type 0
  pub open_file : FilePath → Disk → Result Error (Unit {0}) × Disk
  pub file_len : Disk → FilePath → Result Error ℕ
  pub read_file : Disk → FilePath → ℕ → ℕ → Result Error Bytes
  pub write_file : FilePath → ℕ → Bytes → Disk → Result Error (Unit {0}) × Disk
  pub Storage : Type 0
  pub storage_disk : FilePath → Disk → Result Error Storage × Disk
  pub build : Bytes → Option SecretKey → Storage → Disk → Result Error api.Feed × Disk

pub record InnerCorestore (V : Env) : Type 0 where
  pub master_key : Bytes
  pub feeds : FeedMap V.api
  pub name : Bytes
  pub storage_path : FilePath
  pub subscribers : List (Subscriber V.api.Feed)

-- The corestore with the disk and the number of random keys drawn so far.
pub record World (V : Env) : Type 0 where
  pub store : InnerCorestore V
  pub disk : V.Disk
  pub drawn : ℕ

-- What `open` works on, before there is a corestore.
pub record Bare (V : Env) : Type 0 where
  pub disk : V.Disk
  pub drawn : ℕ

abbrev pub Method : Env → Type 0 → Type 0
Method V A = Base.Action (World V) V.Error A
