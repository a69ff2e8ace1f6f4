-- ===== src/Corestore/Methods.antt =====
-- The methods of `InnerCorestore`.
use hyperspace_rs.Base
use hyperspace_rs.Base.{
  Subscriber, ℕ, zero, suc, ◌+◌, ltb, List, [], ◌∷◌, ◌++◌, take, drop, Option, none, some, Bool,
  true, false, if◌then◌else◌, Bytes, Result, ok, err, Fault, failed, panicked, continue, ◌>>=◌,
  ◌>>◌, pure, gets, modify, lift, lift_fault, unwrap, unwrap_ok, length,
}
use hyperspace_rs.FeedMap
use hyperspace_rs.FeedMap.{FeedMap}
use hyperspace_rs.Corestore.{FilePath, Env, InnerCorestore, Bare, Method}

-- `"corestore"`, `"master_key"`, `"name"`, `"key"` and `"default"` as bytes.
abbrev pub namespace : Bytes
namespace = b'c' ∷ b'o' ∷ b'r' ∷ b'e' ∷ b's' ∷ b't' ∷ b'o' ∷ b'r' ∷ b'e' ∷ []

abbrev pub master_key_filename : Bytes
master_key_filename = b'm' ∷ b'a' ∷ b's' ∷ b't' ∷ b'e' ∷ b'r' ∷ b'_' ∷ b'k' ∷ b'e' ∷ b'y' ∷ []

abbrev pub name_file : Bytes
name_file = b'n' ∷ b'a' ∷ b'm' ∷ b'e' ∷ []

abbrev pub key_file : Bytes
key_file = b'k' ∷ b'e' ∷ b'y' ∷ []

abbrev pub default_name : Bytes
default_name = b'd' ∷ b'e' ∷ b'f' ∷ b'a' ∷ b'u' ∷ b'l' ∷ b't' ∷ []

-- `u64` or an error as 0: `.unwrap_or(0)`
abbrev pub unwrap_or_zero : {E : Type 0} → Result E ℕ → ℕ
unwrap_or_zero (ok n) = n
unwrap_or_zero (err e) = 0

-- The loop of `emit`: a sender whose receiver is gone ends it by a panic.
unfoldable pub send_all :
    {Event : Type 0} → Event → List (Subscriber Event) → Bool × List (Subscriber Event)
send_all event [] = (true, [])
send_all event (s ∷ ss) =
    let (sent, ss') = send_all event ss in
    if s.connected
    then (sent, record s { events = s.events ++ event ∷ [] } ∷ ss')
    else (false, s ∷ ss)

module _ (V : Env) where
  -- `derive_key`
  unfoldable pub derive_key : Bytes → Bytes → Bytes → Bytes
  derive_key master_key ns name = V.blake2b master_key (ns ∷ name ∷ [])

  unfoldable pub feed_path : FilePath → Bytes → FilePath
  feed_path storage_path dkey =
      let hdkey = V.hex dkey in storage_path ++ take 2 hdkey ∷ take 2 (drop 2 hdkey) ∷ hdkey ∷ []

-- The master key: that on disk, or a new one, which is written there.
module _ {V : Env} where
  unfoldable pub written_key : FilePath → Bytes → Base.Action (Bare V) V.Error Bytes
  written_key file key b =
      let (r, disk) = V.write_file file 0 (take 32 key) b.disk in
      (unwrap_ok r >> pure key) (record { disk = disk; drawn = suc b.drawn })

  unfoldable pub master_key_of :
      FilePath → Result V.Error Bytes → Base.Action (Bare V) V.Error Bytes
  master_key_of file (ok key) b = (ok key, b)
  master_key_of file (err e) b = written_key file (V.random_key b.drawn) b

  unfoldable pub read_master_key : FilePath → Base.Action (Bare V) V.Error Bytes
  read_master_key file b = master_key_of file (V.read_file b.disk file 0 32) b

  unfoldable pub empty_store : FilePath → Bytes → InnerCorestore V
  empty_store path master_key = record {
    master_key = master_key;
    feeds = FeedMap.new;
    name = default_name;
    storage_path = path;
    subscribers = [];
  }

  unfoldable pub open_master_key : FilePath → Base.Action (Bare V) V.Error (Unit {0})
  open_master_key file b =
      let (r, disk) = V.open_file file b.disk in
      (lift_fault r, record { disk = disk; drawn = b.drawn })

  -- `InnerCorestore::open` and `with_storage_path`
  unfoldable pub open_store : FilePath → Base.Action (Bare V) V.Error (InnerCorestore V)
  open_store path = do
    open_master_key (path ++ master_key_filename ∷ [])
    master_key ← read_master_key (path ++ master_key_filename ∷ [])
    pure (empty_store path master_key)

  unfoldable pub emit : V.api.Feed → Method V (Unit {0})
  emit feed w =
      let (sent, subscribers) = send_all feed w.store.subscribers in
      let w' = record w { store = record w.store { subscribers = subscribers } } in
      if sent then (ok tt, w') else (err panicked, w')

  -- The new subscriber's place in the list stands for the receiver.
  unfoldable pub subscribe : Method V ℕ
  subscribe w =
      let new : Subscriber V.api.Feed = record { connected = true; events = [] } in
      (
        ok (length w.store.subscribers),
        record w { store = record w.store { subscribers = w.store.subscribers ++ new ∷ [] } },
      )

  unfoldable pub feeds : Method V (List V.api.Feed)
  feeds = gets (λ w. FeedMap.iter w.store.feeds)

  -- `random_access_disk`, through the methods that give its path
  unfoldable pub open_path : FilePath → Method V (Unit {0})
  open_path path w =
      let (r, disk) = V.open_file path w.disk in (lift_fault r, record w { disk = disk })

  unfoldable pub feed_storage : Bytes → Bytes → Method V FilePath
  feed_storage dkey name w =
      let path = feed_path V w.store.storage_path dkey ++ name ∷ [] in
      (open_path path >> pure path) w

  unfoldable pub name_storage : Bytes → Method V FilePath
  name_storage dkey = feed_storage dkey name_file

  unfoldable pub read_bytes : FilePath → ℕ → Method V Bytes
  read_bytes path len w = unwrap_ok (V.read_file w.disk path 0 len) w

  -- `len().await.unwrap_or(0)`
  unfoldable pub len_of : FilePath → Method V ℕ
  len_of path = gets (λ w. unwrap_or_zero (V.file_len w.disk path))

  unfoldable pub name_of : FilePath → ℕ → Method V (Option Bytes)
  name_of path len =
      if ltb 0 len then (read_bytes path len >>= λ name. pure (some name)) else pure none

  unfoldable pub name_at : FilePath → Method V (Option Bytes)
  name_at path = len_of path >>= name_of path

  unfoldable pub read_name : Bytes → Method V (Option Bytes)
  read_name dkey = name_storage dkey >>= name_at

  unfoldable pub write_path : FilePath → Bytes → Method V (Unit {0})
  write_path path bytes w =
      let (r, disk) = V.write_file path 0 bytes w.disk in unwrap_ok r (record w { disk = disk })

  unfoldable pub write_unless : FilePath → Bytes → ℕ → Method V Bool
  write_unless path name len = if ltb 0 len then pure false else (write_path path name >> pure true)

  unfoldable pub write_at : Bytes → FilePath → Method V Bool
  write_at name path = len_of path >>= write_unless path name

  unfoldable pub write_name_if_empty : Bytes → Bytes → Method V Bool
  write_name_if_empty dkey name = name_storage dkey >>= write_at name

  unfoldable pub derive_secret : Bytes → Bytes → Method V Bytes
  derive_secret ns name = gets (λ w. derive_key V w.store.master_key ns name)

  unfoldable pub generate_key : Method V Bytes
  generate_key w = (ok (V.random_key w.drawn), record w { drawn = suc w.drawn })

  -- The name given, or a random one.
  unfoldable pub name_or : Option Bytes → Method V Bytes
  name_or (some name) w = (ok name, w)
  name_or none w = generate_key w

  unfoldable pub key_pair_of : Bytes → Method V (Bytes × Option V.SecretKey × Option Bytes)
  key_pair_of name = do
    seed ← derive_secret namespace name
    secret_key ← unwrap (V.secret_of seed)
    pure (V.public_of secret_key, some secret_key, some name)

  unfoldable pub generate_key_pair :
      Option Bytes → Method V (Bytes × Option V.SecretKey × Option Bytes)
  generate_key_pair name = name_or name >>= key_pair_of
