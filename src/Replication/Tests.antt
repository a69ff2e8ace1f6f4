-- ===== src/Replication/Tests.antt =====
-- Replication of the corestore of Corestore/Sample.antt, where another task opens a feed by name.
use hyperspace_rs.Base.Maps
use hyperspace_rs.Base.{ℕ, ◌+◌, List, [], ◌∷◌, none, some, Bytes}
use hyperspace_rs.FeedMap
use hyperspace_rs.Corestore.Sample.{plain, world}
use hyperspace_rs.Replicator
use hyperspace_rs.Replication.{Replication, Event, corestore_feed, elsewhere, start, on_events}

-- A feed is opened, and the loop takes the event.
abbrev events : List Event
events = elsewhere none (some (5 ∷ [])) ∷ corestore_feed ∷ []

abbrev after : Replication plain
after = (on_events events (start world Replicator.new)).1
