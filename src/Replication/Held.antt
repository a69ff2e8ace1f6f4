-- ===== src/Replication/Held.antt =====
-- Which feeds a replicator holds.
use hyperspace_rs.Base.Maps
use hyperspace_rs.Base.{
  ℕ, ◌≡◌, subst, List, [], ◌∷◌, map, some, Bytes, bytes_discrete, ℕ_discrete, HashMap, arith,
}
use hyperspace_rs.FeedMap.{FeedApi}
use hyperspace_rs.FeedMap.Invariant.{dkey_of}
use hyperspace_rs.Replicator.{Replicator, PeeredFeed, add_feed, new_peered}
use hyperspace_rs.Replicator.Feeds.{add_feed-reads}
use hyperspace_rs.Replication.{add_all}

-- The replicator has an entry for the discovery key.
abbrev pub IsHeld : {A : FeedApi} → Replicator A → Bytes → Type 0
IsHeld {A} r d = (p : PeeredFeed A) × (Maps.get bytes_discrete d r.feeds ≡ some p)

module _ {A : FeedApi} where
  pub add_feed-IsHeld :
      (r : Replicator A) (f : A.Feed) (d : Bytes) → IsHeld r d → IsHeld (add_feed r f) d
  add_feed-IsHeld r f d (p, e) = elim (bytes_discrete (dkey_of A f) d) [
    | yes h ↦ (new_peered f, ground (arith, (add_feed-reads r f).0 d))
    | no h ↦ (p, ground (arith, (add_feed-reads r f).0 d))
  ]

  pub add_feed-IsHeld_new : (r : Replicator A) (f : A.Feed) → IsHeld (add_feed r f) (dkey_of A f)
  add_feed-IsHeld_new r f = (new_peered f, ground (arith, (add_feed-reads r f).0 (dkey_of A f)))

  add_all-IsHeld :
      (fs : List A.Feed) (r : Replicator A) (d : Bytes) → IsHeld r d → IsHeld (add_all fs r) d
  unfolding add_all
  add_all-IsHeld [] r d held = held
  add_all-IsHeld (f ∷ fs) r d held = add_all-IsHeld fs (add_feed r f) d (add_feed-IsHeld r f d held)

  -- The loop over the feeds adds each of them.
  pub add_all-IsHeld_new :
      (m : HashMap ℕ A.Feed) (r : Replicator A) (id : ℕ) (f : A.Feed)
      → Maps.get ℕ_discrete id m ≡ some f
      → IsHeld (add_all (map (λ e. e.1) m) r) (dkey_of A f)
  unfolding add_all Maps.get
  add_all-IsHeld_new [] r id f e = absurd (ground (arith, e))
  add_all-IsHeld_new ((i, g) ∷ m) r id f e = elim (ℕ_discrete i id) [
    | yes h ↦
        let same : g ≡ f = ground (arith, e) in
        add_all-IsHeld (map (λ e. e.1) m) (add_feed r g) (dkey_of A f)
          (subst (λ x. IsHeld (add_feed r g) (dkey_of A x)) same (add_feed-IsHeld_new r g))
    | no h ↦ add_all-IsHeld_new m (add_feed r g) id f (ground (arith, e))
  ]
