-- ===== src/Corestore/Tests.antt =====
-- The corestore of Corestore/Sample.antt at work.
use hyperspace_rs.Base
use hyperspace_rs.Base.{
  Subscriber, ℕ, zero, suc, ◌+◌, ◌≡◌, refl, ltb, List, [], ◌∷◌, ◌++◌, map, length, take, drop,
  Option, none, some, Bool, true, false, arith, ite, Bytes, bytes_discrete, Result, ok, err, ◌⊎◌,
  if◌then◌else◌,
}
use hyperspace_rs.FeedMap
use hyperspace_rs.FeedMap.{FeedApi, FeedMap}
use hyperspace_rs.FeedMap.Invariant.{new-IsValid}
use hyperspace_rs.Corestore.{FilePath, World, Bare}
use hyperspace_rs.Base.Maps
use hyperspace_rs.Corestore.Methods.{
  open_store, generate_key_pair, name_or, key_pair_of, derive_secret, derive_key, emit, feed_path,
  feed_storage, len_of, name_storage, open_path, send_all, write_at, write_name_if_empty,
  write_path, write_unless, open_master_key, read_master_key, master_key_of, written_key,
  empty_store,
}
use hyperspace_rs.Corestore.Opening.{
  open_feed, found_or, prepare, known_name, keys_for, prepare_with, keep_name, build, build_feed,
  insert_feed, open_storage, publish, get_by_name, get_by_key, get_by_dkey, key_cached, name_cached,
}
use hyperspace_rs.Corestore.Opened.{open_feed-announces, IsAdded, IsCached}
use hyperspace_rs.Corestore.Named.{key_of_name, get_by_name-again, get_by_name-key, open_feed-found}
use hyperspace_rs.Corestore.Sample.{
  path_discrete, Disk, write_file, read_file, copies, plain, world,
}
use hyperspace_rs.Corestore.Shared.{
  Call, subscribes, by_name, by_key, by_dkey, after_call, after_calls,
}
use hyperspace_rs.Corestore.Told.{held_feeds, subscriber-hears}
use hyperspace_rs.Corestore.MasterKey.{DiskLaws, open_store-again}

take_written : (bytes : Bytes) → take (length bytes) bytes ≡ bytes
take_written bytes = Base.take_of_length-le (length bytes) bytes (omega arith)

read_written :
    (p : FilePath) (bytes : Bytes) (d : Disk)
    → (write_file p 0 bytes d).0 ≡ ok tt
    → read_file (write_file p 0 bytes d).1 p 0 (length bytes) ≡ ok bytes
read_written p bytes d e = ground (arith, take_written bytes)

abbrev plain_laws : DiskLaws plain
plain_laws = record {
  read_opened = λ p q i n d. refl;
  read_written = read_written;
  key_length = λ i. refl;
}

abbrev bare : Bare plain
bare = record { disk = λ _. []; drawn = 3 }

abbrev later : Bare plain
later = record { disk = λ _. copies 32 3; drawn = 8 }

first_opening : open_store {V = plain} ((1 ∷ []) ∷ []) bare ≡ (
  ok (empty_store {V = plain} ((1 ∷ []) ∷ []) (copies 32 3)),
  (open_store {V = plain} ((1 ∷ []) ∷ []) bare).1,
)
unfolding open_store open_master_key read_master_key master_key_of written_key empty_store
first_opening = refl

open_store-again_example :
    open_store ((1 ∷ []) ∷ []) later
    ≡ (ok (empty_store {V = plain} ((1 ∷ []) ∷ []) (copies 32 3)), later)
unfolding open_store open_master_key read_master_key master_key_of written_key path_discrete
    bytes_discrete empty_store
open_store-again_example =
    open_store-again plain_laws ((1 ∷ []) ∷ []) bare (open_store {V = plain} ((1 ∷ []) ∷ []) bare).1
      later (empty_store {V = plain} ((1 ∷ []) ∷ []) (copies 32 3)) first_opening refl refl

abbrev opened : World plain
opened = (get_by_name (5 ∷ []) world).1

opened_ok : get_by_name (5 ∷ []) world ≡ (ok (1 ∷ 5 ∷ []), opened)
unfolding get_by_name open_feed found_or key_cached name_cached FeedMap.get_name Maps.get
    FeedMap.new prepare known_name keys_for generate_key_pair name_or key_pair_of derive_secret
    prepare_with keep_name Maps.insert derive_key emit feed_path feed_storage len_of name_storage
    open_path send_all write_at write_name_if_empty write_path write_unless build build_feed
    insert_feed open_storage publish FeedMap.add_name FeedMap.feed_of FeedMap.insert Base.concat
opened_ok = refl

get_by_name-again_example : get_by_name (5 ∷ []) opened ≡ (ok (1 ∷ 5 ∷ []), opened)
get_by_name-again_example =
    get_by_name-again (5 ∷ []) world opened (1 ∷ 5 ∷ []) new-IsValid opened_ok

get_by_name-key_example : key_of_name plain (1 ∷ []) (5 ∷ []) ≡ some (1 ∷ 5 ∷ [])
unfolding FeedMap.get_name Maps.get FeedMap.new FeedMap.feed_of
get_by_name-key_example =
    get_by_name-key {V = plain} (λ key secret s d f e. ground (arith, e)) (5 ∷ []) world opened
      (1 ∷ 5 ∷ []) refl opened_ok

open_feed-found_example :
    (get_by_key {V = plain} (1 ∷ 5 ∷ []) opened ≡ (ok (1 ∷ 5 ∷ []), opened))
    × (get_by_dkey {V = plain} (2 ∷ 6 ∷ []) opened ≡ (ok (some (1 ∷ 5 ∷ [])), opened))
unfolding key_cached name_cached FeedMap.get_name Maps.get FeedMap.new FeedMap.feed_of get_by_name
open_feed-found_example =
    open_feed-found none (some (5 ∷ [])) world opened (1 ∷ 5 ∷ []) new-IsValid refl refl opened_ok

open_feed-announces_example :
    ((opened ≡ world) × IsCached world none (some (5 ∷ [])) (1 ∷ 5 ∷ []))
    ⊎ ((key_cached world.store.feeds none ≡ none)
        × (name_cached world.store.feeds (some (5 ∷ [])) ≡ none)
        × IsAdded world (1 ∷ 5 ∷ []) opened)
unfolding get_by_name
open_feed-announces_example =
    open_feed-announces none (some (5 ∷ [])) world opened (1 ∷ 5 ∷ []) opened_ok

-- A corestore that starts on the disk that the first one left.
abbrev restarted : World plain
restarted = record world { disk = opened.disk; drawn = 4 }

abbrev some_calls : List Call
some_calls = by_name (5 ∷ []) ∷ by_key (1 ∷ 5 ∷ []) ∷ by_dkey (9 ∷ []) ∷ by_name (6 ∷ []) ∷ []

subscriber-hears_example :
    let w' = after_calls some_calls (after_call subscribes world) in
    (s : Subscriber Bytes) × (Base.get_elem? w'.store.subscribers 1 ≡ some s)
    × (s.events ≡ drop (length (held_feeds {V = plain} world)) (held_feeds {V = plain} w'))
subscriber-hears_example = subscriber-hears {V = plain} world some_calls new-IsValid (refl, tt)
