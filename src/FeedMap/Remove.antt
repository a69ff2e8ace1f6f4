-- ===== src/FeedMap/Remove.antt =====
-- `_remove`, and what an insertion after it does.
use hyperspace_rs.Base.Maps
use hyperspace_rs.Base.{
  ℕ, ◌-◌, ◌≡◌, ◌≢◌, refl, some, none, Option, arith, length, ℕ_discrete, Option-cases, inl, inr,
  ◌⊎◌, Bytes, bytes_discrete,
}
use hyperspace_rs.FeedMap.{FeedApi, FeedMap, insert, add_name, get_key, get_dkey, remove}
use hyperspace_rs.FeedMap.Invariant.{IsValid, dkey_of}

module _ {A : FeedApi} {m : FeedMap A} (valid : IsValid m) where
  remove-parts :
      (f : A.Feed) (i : ℕ)
      → Maps.get bytes_discrete (A.public_key f) m.keys ≡ some i
      → ((remove m f).feeds ≡ Maps.remove ℕ_discrete i m.feeds)
        × ((remove m f).keys ≡ Maps.remove bytes_discrete (A.public_key f) m.keys)
        × ((remove m f).dkeys ≡ Maps.remove bytes_discrete (dkey_of A f) m.dkeys)
  unfolding remove
  remove-parts f i e =
      rw (e, remove)
        (elim (Option-cases (Maps.get ℕ_discrete i m.names_rev)) [
          | inl n ↦ rw n (refl, refl, refl)
          | inr (name, n) ↦ rw n (refl, refl, refl)
        ])

  get_key-remove_ne :
      (f : A.Feed) (i : ℕ) (k : Bytes)
      → Maps.get bytes_discrete (A.public_key f) m.keys ≡ some i
      → Maps.get bytes_discrete k m.keys ≢ some i
      → (Maps.get bytes_discrete k m.keys ≡ none)
        ⊎ ((j : ℕ) × (Maps.get bytes_discrete k m.keys ≡ some j))
      → get_key (remove m f) k ≡ get_key m k
  unfolding get_key
  get_key-remove_ne f i k e ne (inl a) =
      rw ((remove-parts f i e).1, Maps.get-remove bytes_discrete k (A.public_key f) m.keys)
        (ground arith)
  get_key-remove_ne f i k e ne (inr (j, a)) =
      rw
        (
          (remove-parts f i e).0,
          (remove-parts f i e).1,
          Maps.get-remove bytes_discrete k (A.public_key f) m.keys,
        )
        (ground (arith, Maps.get-remove ℕ_discrete j i m.feeds))

  -- After `_remove` the feed is found neither under its key nor under its discovery key, and a
  -- feed with another id is still found under its key. The map is valid and has an id for the
  -- key of the feed.
  remove-reads :
      (f : A.Feed) (i : ℕ) (k : Bytes)
      → Maps.get bytes_discrete (A.public_key f) m.keys ≡ some i
      → Maps.get bytes_discrete k m.keys ≢ some i
      → let m' = remove m f in
        (get_key m' (A.public_key f) ≡ none)
        × (get_dkey m' (dkey_of A f) ≡ none)
        × (get_key m' k ≡ get_key m k)
  unfolding get_key get_dkey
  remove-reads f i k e ne = (
    rw
        (
          (remove-parts f i e).1,
          Maps.get-remove bytes_discrete (A.public_key f) (A.public_key f) m.keys,
        )
        (ground arith),
    rw ((remove-parts f i e).2, Maps.get-remove bytes_discrete (dkey_of A f) (dkey_of A f) m.dkeys)
        (ground arith),
    get_key-remove_ne f i k e ne (Option-cases _),
  )

  length-remove :
      (f : A.Feed) (i : ℕ)
      → Maps.get bytes_discrete (A.public_key f) m.keys ≡ some i
      → length (remove m f).feeds ≡ length m.feeds - 1
  length-remove f i e =
      let (f', held, _) = valid.keyed (A.public_key f) i e in
      rw ((remove-parts f i e).0)
        (omega (arith, Maps.length-remove ℕ_discrete i f' m.feeds valid.distinct held))

  clobbered :
      (f h g : A.Feed) (i : ℕ)
      → Maps.get bytes_discrete (A.public_key f) m.keys ≡ some i
      → Maps.get bytes_discrete (A.public_key h) m.keys ≡ some (length m.feeds - 1)
      → i ≢ length m.feeds - 1
      → get_key (insert (remove m f) g none).0 (A.public_key h) ≡ some g
  unfolding get_key insert
  clobbered f h g i e k ne =
      rw
        (
          length-remove f i e,
          (remove-parts f i e).1,
          Maps.get-insert bytes_discrete (A.public_key h) (A.public_key g) (length m.feeds - 1)
              (Maps.remove bytes_discrete (A.public_key f) m.keys),
          Maps.get-remove bytes_discrete (A.public_key h) (A.public_key f) m.keys,
        )
        (ground (
          arith,
          Maps.get-insert ℕ_discrete (length m.feeds - 1) (length m.feeds - 1) g (remove m f).feeds,
        ))

  -- The length of the map is the next id, also after a removal: an insertion then takes the
  -- place of the newest feed, whose key finds the new feed from there on. The map is valid, and
  -- the removed feed is not the newest one.
  pub insert-remove_clobbers :
      (f h g : A.Feed) (i : ℕ) (name : Option Bytes)
      → Maps.get bytes_discrete (A.public_key f) m.keys ≡ some i
      → Maps.get bytes_discrete (A.public_key h) m.keys ≡ some (length m.feeds - 1)
      → i ≢ length m.feeds - 1
      → get_key (insert (remove m f) g name).0 (A.public_key h) ≡ some g
  unfolding get_key insert add_name
  insert-remove_clobbers f h g i none e k ne = clobbered f h g i e k ne
  insert-remove_clobbers f h g i (some name) e k ne = clobbered f h g i e k ne
