-- ===== src/Replication.antt =====
-- corestore/src/replicate.rs: `replicate_corestore`, which keeps the feeds of a corestore in a
-- replicator. Its events of the corestore are those of its own subscriber.
pub mod Held
pub mod Reached
pub mod Covered
mod Tests
use hyperspace_rs.Base
use hyperspace_rs.Base.{
  ℕ, ◌+◌, List, [], ◌∷◌, Option, none, some, Bytes, Result, ok, err, Fault, failed, panicked,
  get_elem?, drop, length,
}
use hyperspace_rs.FeedMap
use hyperspace_rs.FeedMap.{FeedApi}
use hyperspace_rs.Corestore.{Env, World}
use hyperspace_rs.Corestore.Methods.{subscribe}
use hyperspace_rs.Corestore.Opening.{get_by_dkey, open_feed}
use hyperspace_rs.Replicator
use hyperspace_rs.Replicator.{Replicator, add_feed}

-- The corestore and the replicator, the place of the loop's subscriber in the corestore, and how
-- many of its events the loop has taken.
pub record Replication (V : Env) : Type 0 where
  pub corestore : World V
  pub replicator : Replicator V.api
  pub place : ℕ
  pub taken : ℕ

-- An event of the loop, or another task that opens a feed meanwhile; a sequence of events ends
-- where either panics.
pub data Event : Type 0 where
  -- `ReplicatorEvent::DiscoveryKey`
  discovery_key : Bytes → Event
  -- the next `CorestoreEvent::Feed`
  corestore_feed : Event
  other_event : Event
  elsewhere : Option Bytes → Option Bytes → Event

-- The loop over the feeds of the corestore.
unfoldable pub add_all : {A : FeedApi} → List A.Feed → Replicator A → Replicator A
add_all [] r = r
add_all (f ∷ fs) r = add_all fs (add_feed r f)

module _ {V : Env} where
  open V use {Feed}

  -- What is done before the loop.
  unfoldable pub start : World V → Replicator V.api → Replication V
  start w r = record {
    corestore = (subscribe w).1;
    replicator = (Replicator.subscribe (add_all (FeedMap.iter w.store.feeds) r)).0;
    place = length w.store.subscribers;
    taken = 0;
  }

  -- The events of the corestore that wait.
  unfoldable pub waiting : World V → ℕ → ℕ → List Feed
  waiting w place taken = elim (get_elem? w.store.subscribers place) [
    | none ↦ []
    | some s ↦ drop taken s.events
  ]

  unfoldable pub take_feed : List Feed → Replication V → Replication V
  take_feed [] s = s
  take_feed (f ∷ fs) s = record s { replicator = add_feed s.replicator f; taken = s.taken + 1 }

  -- `let _ =` drops the result; a panic ends the task.
  abbrev pub dropped :
      {A : Type 0}
      → Result (Fault V.Error) A × World V
      → Replication V
      → Result (Fault V.Error) (Unit {0}) × Replication V
  dropped (ok a, w) s = (ok tt, record s { corestore = w })
  dropped (err (failed e), w) s = (ok tt, record s { corestore = w })
  dropped (err panicked, w) s = (err panicked, record s { corestore = w })

  unfoldable pub on_event : Event → Base.Action (Replication V) V.Error (Unit {0})
  on_event (discovery_key dkey) s = dropped (get_by_dkey dkey s.corestore) s
  on_event corestore_feed s = (ok tt, take_feed (waiting s.corestore s.place s.taken) s)
  on_event other_event s = (ok tt, s)
  on_event (elsewhere key name) s = dropped (open_feed key name s.corestore) s

  unfoldable pub on_events : List Event → Base.Action (Replication V) V.Error (Unit {0})
  on_events [] s = (ok tt, s)
  on_events (event ∷ events) s = Base.continue (λ _. on_events events) (on_event event s)
