-- ===== src/Corestore/Opening.antt =====
-- `open_feed` and the methods that call it.

use hyperspace_rs.Base.{
  Option, none, some, Bytes, lift, pure, gets, ◌>>=◌, ◌>>◌, Result, ok, err, lift_fault,
}
use hyperspace_rs.FeedMap
use hyperspace_rs.FeedMap.{FeedApi, FeedMap}
use hyperspace_rs.Corestore.{Env, Method}
use hyperspace_rs.Corestore.Methods.{
  read_name, write_name_if_empty, generate_key_pair, feed_path, emit, feed_storage, key_file,
}

-- `key.map(|k| feeds.get_key(&k)).flatten()`, and the same for a name
unfoldable pub key_cached : {A : FeedApi} → FeedMap A → Option Bytes → Option A.Feed
key_cached m none = none
key_cached m (some key) = FeedMap.get_key m key

unfoldable pub name_cached : {A : FeedApi} → FeedMap A → Option Bytes → Option A.Feed
name_cached m none = none
name_cached m (some name) = FeedMap.get_name m name

module _ {V : Env} where
  open V use {discovery_key, Feed, SecretKey}

  -- The name asked for, or the one that is kept beside a feed opened by its key.
  unfoldable pub known_name : Option Bytes → Option Bytes → Method V (Option Bytes)
  known_name key (some name) w = (ok (some name), w)
  known_name none none w = (ok none, w)
  known_name (some key) none w = read_name (discovery_key key) w

  -- The keys to open the feed with, and its name.
  unfoldable pub keys_for :
      Option Bytes → Option Bytes → Method V (Bytes × Option SecretKey × Option Bytes)
  keys_for key (some name) w = generate_key_pair (some name) w
  keys_for none none w = generate_key_pair none w
  keys_for (some key) none w =
      (lift (V.check_public key) >>= λ public_key. pure (public_key, none, none)) w

  unfoldable pub keep_name : Bytes → Option Bytes → Method V (Unit {0})
  keep_name dkey none w = (ok tt, w)
  keep_name dkey (some name) w = (write_name_if_empty dkey name >> pure tt) w

  -- `storage_disk(&dir)` and the builder
  unfoldable pub open_storage : Bytes → Method V V.Storage
  open_storage public_key w =
      let dir = feed_path V w.store.storage_path (discovery_key public_key) in
      let (r, disk) = V.storage_disk dir w.disk in (lift_fault r, record w { disk = disk })

  unfoldable pub build : Bytes → Option SecretKey → V.Storage → Method V Feed
  build public_key secret_key storage w =
      let (feed, disk) = V.build public_key secret_key storage w.disk in
      (lift_fault feed, record w { disk = disk })

  -- `storage_disk(&dir)` and the builder
  unfoldable pub build_feed : Bytes → Option SecretKey → Method V Feed
  build_feed public_key secret_key = open_storage public_key >>= build public_key secret_key

  unfoldable pub insert_feed : Feed → Option Bytes → Method V Feed
  insert_feed feed name w =
      let (feeds, arc_feed) = FeedMap.insert w.store.feeds feed name in
      (ok arc_feed, record w { store = record w.store { feeds = feeds } })

  -- What is done before the feed is built: its keys, and its name on disk.
  unfoldable pub prepare_with :
      Bytes × Option SecretKey × Option Bytes → Method V (Feed × Option Bytes)
  prepare_with (public_key, secret_key, generated_name) = do
    keep_name (discovery_key public_key) generated_name
    feed ← build_feed public_key secret_key
    pure (feed, generated_name)

  unfoldable pub prepare : Option Bytes → Option Bytes → Method V (Feed × Option Bytes)
  prepare key name = do name ← known_name key name; keys ← keys_for key name; prepare_with keys

  unfoldable pub publish : Feed × Option Bytes → Method V Feed
  publish (feed, generated_name) = do
    arc_feed ← insert_feed feed generated_name
    emit arc_feed
    pure arc_feed

  -- `if let Some(feed) = found { return Ok(feed.clone()) }` and what follows it
  unfoldable pub found_or : Option Feed → Method V Feed → Method V Feed
  found_or (some feed) rest w = (ok feed, w)
  found_or none rest w = rest w

  unfoldable pub open_feed : Option Bytes → Option Bytes → Method V Feed
  open_feed key name w =
      found_or (key_cached w.store.feeds key)
        (found_or (name_cached w.store.feeds name) (prepare key name >>= publish)) w

  unfoldable pub get_by_key : Bytes → Method V Feed
  get_by_key key = open_feed (some key) none

  unfoldable pub get_by_name : Bytes → Method V Feed
  get_by_name name = open_feed none (some name)

  -- The key that was read from the disk, if one was.
  unfoldable pub feed_of_key : Result V.Error Bytes → Method V (Option Feed)
  feed_of_key (ok key) w = (get_by_key key >>= λ feed. pure (some feed)) w
  feed_of_key (err e) w = (ok none, w)

  -- Whether the feed exists on disk, and if so, the feed.
  unfoldable pub get_from_disk : Bytes → Method V (Option Feed)
  get_from_disk dkey = do
    path ← feed_storage dkey key_file
    key ← gets (λ w. V.read_file w.disk path 0 32)
    feed_of_key key

  unfoldable pub found_dkey : Bytes → Option Feed → Method V (Option Feed)
  found_dkey dkey (some feed) w = (ok (some feed), w)
  found_dkey dkey none w = get_from_disk dkey w

  unfoldable pub get_by_dkey : Bytes → Method V (Option Feed)
  get_by_dkey dkey w = found_dkey dkey (FeedMap.get_dkey w.store.feeds dkey) w
