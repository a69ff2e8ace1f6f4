-- ===== src/FeedMap.antt =====
-- corestore/src/feed_map.rs. A feed and the discovery key of a public key belong to other crates
-- and are parameters; the shared reference `ArcFeed` is the feed that it points to.
pub mod Invariant
pub mod Insert
pub mod Remove
mod Tests
use hyperspace_rs.Base.Maps
use hyperspace_rs.Base.{
  ℕ, List, [], ◌∷◌, Option, none, some, map, length, HashMap, ℕ_discrete, bytes_discrete, Bytes,
}

-- The part of the hypercore crates that the map calls.
pub record FeedApi : Type 1 where
  pub Feed : Type 0
  pub public_key : Feed → Bytes
  pub discovery_key : Bytes → Bytes

pub record FeedMap (A : FeedApi) : Type 0 where
  pub feeds : HashMap ℕ A.Feed
  pub keys : HashMap Bytes ℕ
  pub dkeys : HashMap Bytes ℕ
  pub names : HashMap Bytes ℕ
  pub names_rev : HashMap ℕ Bytes

module _ {A : FeedApi} where
  open A use {Feed, public_key, discovery_key}

  unfoldable pub new : FeedMap A
  new = record { feeds = []; keys = []; dkeys = []; names = []; names_rev = [] }

  -- `map(|id| self.feeds.get(id)).flatten()`
  unfoldable pub feed_of : FeedMap A → Option ℕ → Option Feed
  feed_of m none = none
  feed_of m (some id) = Maps.get ℕ_discrete id m.feeds

  unfoldable pub get_name : FeedMap A → Bytes → Option Feed
  unfolding feed_of
  get_name m name = feed_of m (Maps.get bytes_discrete name m.names)

  unfoldable pub get_key : FeedMap A → Bytes → Option Feed
  unfolding feed_of
  get_key m key = feed_of m (Maps.get bytes_discrete key m.keys)

  unfoldable pub get_dkey : FeedMap A → Bytes → Option Feed
  unfolding feed_of
  get_dkey m dkey = feed_of m (Maps.get bytes_discrete dkey m.dkeys)

  -- The maps of names, where a name was given.
  unfoldable pub add_name : FeedMap A → ℕ → Option Bytes → FeedMap A
  add_name m id none = m
  add_name m id (some name) = record m {
    names = Maps.insert bytes_discrete name id m.names;
    names_rev = Maps.insert ℕ_discrete id name m.names_rev;
  }

  unfoldable pub insert : FeedMap A → Feed → Option Bytes → FeedMap A × Feed
  unfolding add_name
  insert m feed name =
      let id = length m.feeds in
      let key = public_key feed in
      let m' = record m {
        feeds = Maps.insert ℕ_discrete id feed m.feeds;
        keys = Maps.insert bytes_discrete key id m.keys;
        dkeys = Maps.insert bytes_discrete (discovery_key key) id m.dkeys;
      } in
      (add_name m' id name, feed)

  unfoldable pub iter : FeedMap A → List Feed
  iter m = map (λ e. e.1) m.feeds

  unfoldable pub forget_name : FeedMap A → ℕ → Option Bytes → FeedMap A
  forget_name m id none = m
  forget_name m id (some name) = record m {
    names = Maps.remove bytes_discrete name m.names;
    names_rev = Maps.remove ℕ_discrete id m.names_rev;
  }

  unfoldable pub remove_id : FeedMap A → Bytes → Option ℕ → FeedMap A
  unfolding forget_name
  remove_id m key none = m
  remove_id m key (some id) =
      let m' = record m {
        feeds = Maps.remove ℕ_discrete id m.feeds;
        keys = Maps.remove bytes_discrete key m.keys;
        dkeys = Maps.remove bytes_discrete (discovery_key key) m.dkeys;
      } in
      forget_name m' id (Maps.get ℕ_discrete id m.names_rev)

  -- `_remove`
  unfoldable pub remove : FeedMap A → Feed → FeedMap A
  unfolding remove_id
  remove m feed = let key = public_key feed in remove_id m key (Maps.get bytes_discrete key m.keys)
