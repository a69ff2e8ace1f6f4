-- ===== src/Replication/Covered.antt =====
-- The feeds of the corestore that are in the replicator, and those that wait for it.
use hyperspace_rs.Base.Maps
use hyperspace_rs.Base.{
  ℕ, ◌≤◌, ◌≡◌, List, some, length, drop, get_elem?, Subscriber, ℕ_discrete, ◌⊎◌,
}
use hyperspace_rs.FeedMap
use hyperspace_rs.FeedMap.{FeedMap}
use hyperspace_rs.FeedMap.Invariant.{dkey_of}
use hyperspace_rs.Corestore.{Env}
use hyperspace_rs.Replicator
use hyperspace_rs.Replicator.{Replicator}
use hyperspace_rs.Replication.{Replication}
use hyperspace_rs.Replication.Held.{IsHeld}

-- The feed is among those that wait.
abbrev pub IsWaiting : {F : Type 0} → List F → F → Type 0
IsWaiting fs f = (k : ℕ) × (get_elem? fs k ≡ some f)

-- The loop's subscriber is in its place, and each feed of the corestore is held by the replicator
-- or waits in an event that the loop has not taken.
pub record IsCovered {V : Env} (s : Replication V) : Type 0 where
  pub subscriber : Subscriber V.api.Feed
  pub listed : get_elem? s.corestore.store.subscribers s.place ≡ some subscriber
  pub behind : s.taken ≤ length subscriber.events
  pub covered :
      (id : ℕ) (f : V.api.Feed)
      → Maps.get ℕ_discrete id s.corestore.store.feeds.feeds ≡ some f
      → IsHeld s.replicator (dkey_of V.api f) ⊎ IsWaiting (drop s.taken subscriber.events) f
