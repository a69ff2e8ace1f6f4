-- ===== src/FeedMap/Invariant.antt =====
-- The invariant of the maps that nothing was removed from: the ids are 0 up to the number of
-- feeds.
use hyperspace_rs.Base.Maps
use hyperspace_rs.Base.{
  ℕ, ◌+◌, ◌≤◌, ◌<◌, ◌≡◌, refl, some, none, Option, arith, length, ℕ_discrete, ite, Bytes,
  bytes_discrete,
}
use hyperspace_rs.FeedMap.{FeedApi, FeedMap, new, insert, add_name}

abbrev pub dkey_of : (A : FeedApi) → A.Feed → Bytes
dkey_of A f = A.discovery_key (A.public_key f)

-- Every id that a map from keys or names holds is that of a feed.
pub record IsValid {A : FeedApi} (m : FeedMap A) : Type 0 where
  pub distinct : Maps.IsDistinct ℕ_discrete m.feeds
  pub held : (i : ℕ) → i < length m.feeds → (f : A.Feed) × (Maps.get ℕ_discrete i m.feeds ≡ some f)
  pub fresh : (i : ℕ) → length m.feeds ≤ i → Maps.get ℕ_discrete i m.feeds ≡ none
  pub keyed :
      (k : Bytes) (i : ℕ)
      → Maps.get bytes_discrete k m.keys ≡ some i
      → (f : A.Feed) × (Maps.get ℕ_discrete i m.feeds ≡ some f) × (A.public_key f ≡ k)
  pub dkeyed :
      (k : Bytes) (i : ℕ)
      → Maps.get bytes_discrete k m.dkeys ≡ some i
      → (f : A.Feed) × (Maps.get ℕ_discrete i m.feeds ≡ some f)
        × (A.discovery_key (A.public_key f) ≡ k)
  pub named : (n : Bytes) (i : ℕ) → Maps.get bytes_discrete n m.names ≡ some i → i < length m.feeds

module _ {A : FeedApi} where
  pub new-IsValid : IsValid {A = A} new
  unfolding new Maps.get
  new-IsValid = record {
    distinct = tt;
    held = λ i p. absurd (omega arith);
    fresh = λ i p. refl;
    keyed = λ k i e. absurd (ground arith);
    dkeyed = λ k i e. absurd (ground arith);
    named = λ n i e. ground arith;
  }

  module _ {m : FeedMap A} (valid : IsValid m) (feed : A.Feed) where
    pub length-insert :
        length (Maps.insert ℕ_discrete (length m.feeds) feed m.feeds) ≡ length m.feeds + 1
    length-insert =
        Maps.length-insert_new ℕ_discrete (length m.feeds) feed m.feeds
          (valid.fresh _ (omega arith))

    get-insert_feed :
        (i : ℕ)
        → Maps.get ℕ_discrete i (Maps.insert ℕ_discrete (length m.feeds) feed m.feeds)
          ≡ ite (ℕ_discrete (length m.feeds) i) (some feed) (Maps.get ℕ_discrete i m.feeds)
    get-insert_feed i = Maps.get-insert ℕ_discrete i (length m.feeds) feed m.feeds

    -- A feed found under an id is still found after the next id is taken.
    get-insert_old :
        (i : ℕ) (f : A.Feed)
        → Maps.get ℕ_discrete i m.feeds ≡ some f
        → Maps.get ℕ_discrete i (Maps.insert ℕ_discrete (length m.feeds) feed m.feeds) ≡ some f
    get-insert_old i f e = ground (arith, get-insert_feed i, valid.fresh i)

    insert_unnamed-IsValid : IsValid (insert m feed none).0
    unfolding insert
    insert_unnamed-IsValid = record {
      distinct = Maps.insert-IsDistinct ℕ_discrete (length m.feeds) feed m.feeds valid.distinct;
      held = λ i p. elim (ℕ_discrete (length m.feeds) i) [
        | yes e ↦ (feed, ground (arith, get-insert_feed i))
        | no e ↦
            let (f, h) = valid.held i (omega (arith, length-insert)) in (f, get-insert_old i f h)
      ];
      fresh = λ i p. ground (arith, length-insert, get-insert_feed i, valid.fresh i);
      keyed = λ k i e. elim (bytes_discrete (A.public_key feed) k) [
        | yes p ↦ (
          feed,
          ground (
            arith,
            Maps.get-insert bytes_discrete k (A.public_key feed) (length m.feeds) m.keys,
            get-insert_feed i,
          ),
          p,
        )
        | no p ↦
            let (f, h, q) = valid.keyed k i (
              ground (
                arith,
                Maps.get-insert bytes_discrete k (A.public_key feed) (length m.feeds) m.keys,
              )) in
            (f, get-insert_old i f h, q)
      ];
      dkeyed = λ k i e. elim (bytes_discrete (dkey_of A feed) k) [
        | yes p ↦ (
          feed,
          ground (
            arith,
            Maps.get-insert bytes_discrete k (dkey_of A feed) (length m.feeds) m.dkeys,
            get-insert_feed i,
          ),
          p,
        )
        | no p ↦
            let (f, h, q) = valid.dkeyed k i (
              ground (
                arith,
                Maps.get-insert bytes_discrete k (dkey_of A feed) (length m.feeds) m.dkeys,
              )) in
            (f, get-insert_old i f h, q)
      ];
      named = λ n i e. omega (arith, length-insert, valid.named n i e);
    }

  pub add_name-IsValid :
      {m : FeedMap A} (id : ℕ) (name : Option Bytes)
      → id < length m.feeds
      → IsValid m
      → IsValid (add_name m id name)
  unfolding add_name
  add_name-IsValid id none p valid = valid
  add_name-IsValid {m} id (some name) p valid = record {
    distinct = valid.distinct;
    held = valid.held;
    fresh = valid.fresh;
    keyed = valid.keyed;
    dkeyed = valid.dkeyed;
    named =
        λ n i e. ground (arith, Maps.get-insert bytes_discrete n name id m.names, valid.named n i);
  }

  -- Inserting a feed keeps a map valid.
  pub insert-IsValid :
      {m : FeedMap A} (feed : A.Feed) (name : Option Bytes)
      → IsValid m
      → IsValid (insert m feed name).0
  unfolding insert
  insert-IsValid {m} feed name valid =
      add_name-IsValid (length m.feeds) name (omega (arith, length-insert valid feed))
        (insert_unnamed-IsValid valid feed)
