-- ===== src/Replicator/Tests.antt =====
-- A replicator of feeds that are numbers, and a connection that takes every command.
use mathlib.Core.Option
use hyperspace_rs.Base.Maps
use hyperspace_rs.Base.{
  ℕ, ◌+◌, ◌≡◌, refl, List, [], ◌∷◌, map, none, some, true, bytes_discrete, ite,
}
use hyperspace_rs.FeedMap.{FeedApi}
use hyperspace_rs.Replicator.{Replicator, PeeredFeed, new, feed, add_feed, add_peer, new_peered}
use hyperspace_rs.Replicator.Connection.{
  Connection, Happening, handshake, arrives, replicator_event, on_channel, run_peer,
}
use hyperspace_rs.Replicator.Feeds.{on_channel-joins}
use hyperspace_rs.Replicator.Opened.{IsSilent, run_peer-IsSilent}

abbrev numbers : FeedApi
numbers = record { Feed = ℕ; public_key = λ f. f ∷ []; discovery_key = λ k. map (λ b. b + 1) k }

abbrev start : Connection numbers
start = record {
  replicator = add_feed new 7;
  remote_public_key = none;
  opened = [];
  takes = λ _. true;
}

abbrev known : Connection numbers
known = record start { remote_public_key = some (9 ∷ []) }

on_channel-joins_example :
    Maps.get bytes_discrete (8 ∷ []) (on_channel {E = ℕ} (8 ∷ []) known).1.replicator.feeds
    ≡ Option.map
        (λ p. ite (bytes_discrete (8 ∷ []) (8 ∷ [])) (add_peer p (9 ∷ [])) p)
        (Maps.get bytes_discrete (8 ∷ []) known.replicator.feeds)
on_channel-joins_example = on_channel-joins ℕ (8 ∷ []) (9 ∷ []) known refl (8 ∷ [])

abbrev happenings : List (Happening numbers ℕ)
happenings = arrives (replicator_event (feed (8 ∷ []))) ∷ arrives (handshake (9 ∷ [])) ∷ []

run_peer-IsSilent_example : IsSilent (run_peer happenings start).1
run_peer-IsSilent_example = run_peer-IsSilent ℕ happenings start (λ _. refl)
