-- ===== src/Server/Listen.antt =====
-- server/src/options.rs, lib.rs and bin.rs: what the server starts with.

use hyperspace_rs.Base
use hyperspace_rs.Base.{
  ℕ, refl, List, [], ◌∷◌, ◌++◌, Option, none, some, Bool, false, if◌then◌else◌, Bytes, continue,
  pure, unwrap, ◌>>=◌,
}
use hyperspace_rs.FeedMap
use hyperspace_rs.Server.{socket_path}
use hyperspace_rs.Corestore.{FilePath, Env, World, Bare}
use hyperspace_rs.Corestore.Shared.{open_shared, subscribes}
use hyperspace_rs.Corestore.Shared
use hyperspace_rs.Replicator.{Replicator}
use hyperspace_rs.Replicator
use hyperspace_rs.Replication
use hyperspace_rs.Replication.{Replication}

-- `Opts`, with the addresses of sockets as a parameter.
pub record Opts (Addr : Type 0) : Type 0 where
  pub storage : Option FilePath
  pub host : Option Bytes
  pub address : Option Addr
  pub bootstrap : List Addr
  pub port : Option ℕ
  pub dht : Bool
  pub verbose : ℕ

unfoldable pub default_opts : {Addr : Type 0} → Opts Addr
default_opts = record {
  storage = none;
  host = none;
  address = none;
  bootstrap = [];
  port = none;
  dht = false;
  verbose = 0;
}

-- `".hyperspace-rs"` as bytes.
abbrev pub storage_dir : Bytes
storage_dir =
    b'.' ∷ b'h' ∷ b'y' ∷ b'p' ∷ b'e' ∷ b'r' ∷ b's' ∷ b'p' ∷ b'a' ∷ b'c' ∷ b'e' ∷ b'-' ∷ b'r' ∷ b's'
    ∷ []

-- What the program runs.
pub data Mode (Addr : Type 0) : Type 0 where
  bootstrap_node : Option Addr → Mode Addr
  server : Opts Addr → Mode Addr

unfoldable pub mode : {Addr : Type 0} → Opts Addr → Mode Addr
mode opts = if opts.dht then bootstrap_node opts.address else server opts

-- The state that the tasks share.
pub record State (V : Env) : Type 0 where
  pub corestore : World V
  pub replicator : Replicator V.api

module _ {V : Env} where
  -- The storage path that is given, or the directory in the user's home, where there is one.
  unfoldable pub storage_path :
      Option FilePath → Option FilePath → Base.Action (Bare V) V.Error FilePath
  storage_path home (some path) = pure path
  storage_path home none = unwrap home >>= λ dir. pure (dir ++ storage_dir ∷ [])

  -- `listen`, up to the tasks that it spawns: the path of the socket, and the state.
  unfoldable pub listen :
      {Addr : Type 0}
      → FilePath
      → Option FilePath
      → Opts Addr
      → Base.Action (Bare V) V.Error (FilePath × State V)
  listen temp_dir home opts = do
    storage ← storage_path home opts.storage
    corestore ← open_shared storage
    pure (
      socket_path temp_dir opts.host,
      record { corestore = corestore; replicator = Replicator.new },
    )
