-- ===== src/Replicator/Feeds.antt =====
-- The feeds of a replicator, and the peers of each.
use mathlib.Core.Option
use hyperspace_rs.Base.Maps
use hyperspace_rs.Base.{
  ◌≡◌, refl, ap, ◌∙◌, Option, none, some, Bytes, bytes_discrete, ite, arith, tell_all, continue,
  unwrap, modify, Option-cases, inl, inr,
}
use hyperspace_rs.FeedMap.{FeedApi}
use hyperspace_rs.Replicator.{Replicator, PeeredFeed, feed, add_feed, emit, new_peered, add_peer}
use hyperspace_rs.Replicator.Connection.{Connection, Step, on_channel, join}

module _ {A : FeedApi} where
  -- A feed that is added stands under its discovery key with no peers, also where it was there
  -- with peers before; the other feeds stay, and each subscriber that is still there is told of
  -- the discovery key once.
  pub add_feed-reads :
      (r : Replicator A) (f : A.Feed)
      → let dkey = A.discovery_key (A.public_key f) in
        ((d : Bytes)
          → Maps.get bytes_discrete d (add_feed r f).feeds
            ≡ ite (bytes_discrete dkey d) (some (new_peered f)) (Maps.get bytes_discrete d r.feeds))
        × ((add_feed r f).subscribers ≡ tell_all (feed dkey) r.subscribers)
  unfolding add_feed emit
  add_feed-reads r f = (
    (λ d.
        Maps.get-insert bytes_discrete d (A.discovery_key (A.public_key f)) (new_peered f) r.feeds),
    refl,
  )

  module _ (E : Type 0) where
    -- A channel that is opened after the handshake gives the feed of its discovery key one more
    -- peer, the remote of the handshake, and leaves the other feeds alone; a channel of a feed
    -- that is not replicated changes no feed.
    pub on_channel-joins :
        (dkey remote : Bytes) (c : Connection A)
        → c.remote_public_key ≡ some remote
        → let c' = (on_channel {E = E} dkey c).1 in
          (d : Bytes)
          → Maps.get bytes_discrete d c'.replicator.feeds
            ≡ Option.map
                (λ p. ite (bytes_discrete dkey d) (add_peer p remote) p)
                (Maps.get bytes_discrete d c.replicator.feeds)
    unfolding on_channel join
    on_channel-joins dkey remote c e d =
        joined (Maps.get bytes_discrete dkey c.replicator.feeds) refl
      where
        joins : PeeredFeed A → Bytes → Step A E (Unit {0})
        joins p id = modify (λ c'. record c' {
          replicator = record c'.replicator {
            feeds = Maps.insert bytes_discrete dkey (add_peer p id) c'.replicator.feeds;
          };
        })

        joined :
            (o : Option (PeeredFeed A))
            → Maps.get bytes_discrete dkey c.replicator.feeds ≡ o
            → Maps.get bytes_discrete d (join {E = E} dkey o c).1.replicator.feeds
              ≡ Option.map
                  (λ p. ite (bytes_discrete dkey d) (add_peer p remote) p)
                  (Maps.get bytes_discrete d c.replicator.feeds)
        joined none at = elim (Option-cases (Maps.get bytes_discrete d c.replicator.feeds)) [
          | inl n ↦ rw n refl
          | inr (p, h) ↦ ground (arith, at, h)
        ]
        joined (some p) at =
            ap (λ o. Maps.get bytes_discrete d (continue (joins p) (unwrap o c)).1.replicator.feeds)
              e
            ∙ Maps.get-insert bytes_discrete d dkey (add_peer p remote) c.replicator.feeds
            ∙ elim (Option-cases (Maps.get bytes_discrete d c.replicator.feeds)) [
              | inl n ↦ ground (arith, at, n)
              | inr (q, h) ↦ ground (arith, at, h)
            ]
