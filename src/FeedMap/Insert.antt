-- ===== src/FeedMap/Insert.antt =====
-- What is read from a valid map after an insertion.
use hyperspace_rs.Base.Maps
use hyperspace_rs.Base.{
  ℕ, ◌<◌, ◌≡◌, some, none, Option, arith, length, dec_lt, ℕ_discrete, HashMap, ite, Option-cases,
  inl, inr, ◌⊎◌, Bytes, bytes_discrete,
}
use hyperspace_rs.FeedMap.{FeedApi, FeedMap, insert, feed_of, get_key, get_dkey, get_name}
use hyperspace_rs.FeedMap.Invariant.{IsValid, dkey_of}

-- Every id in `index` is that of a feed.
abbrev IsIndex : {A : FeedApi} → FeedMap A → HashMap Bytes ℕ → Type 0
IsIndex m index =
    (k : Bytes) (i : ℕ) → Maps.get bytes_discrete k index ≡ some i → i < length m.feeds

module _ {A : FeedApi} {m : FeedMap A} (valid : IsValid m) (feed : A.Feed) where
  -- A lookup through an index in which `key` was bound to the next id.
  feed_of-insert :
      (index : HashMap Bytes ℕ) (key k : Bytes)
      → IsIndex m index
      → (Maps.get bytes_discrete k index ≡ none)
        ⊎ ((i : ℕ) × (Maps.get bytes_discrete k index ≡ some i))
      → feed_of
          (insert m feed none).0
          (Maps.get bytes_discrete k (Maps.insert bytes_discrete key (length m.feeds) index))
        ≡ ite (bytes_discrete key k) (some feed) (feed_of m (Maps.get bytes_discrete k index))
  unfolding feed_of insert
  feed_of-insert index key k ok (inl e) = ground (
    arith,
    Maps.get-insert bytes_discrete k key (length m.feeds) index,
    Maps.get-insert ℕ_discrete (length m.feeds) (length m.feeds) feed m.feeds,
  )
  feed_of-insert index key k ok (inr (i, e)) = ground (
    arith,
    ok k i e,
    Maps.get-insert bytes_discrete k key (length m.feeds) index,
    Maps.get-insert ℕ_discrete (length m.feeds) (length m.feeds) feed m.feeds,
    Maps.get-insert ℕ_discrete i (length m.feeds) feed m.feeds,
  )

  -- A lookup through an index that was left alone.
  feed_of-insert_old :
      (index : HashMap Bytes ℕ) (k : Bytes)
      → IsIndex m index
      → (Maps.get bytes_discrete k index ≡ none)
        ⊎ ((i : ℕ) × (Maps.get bytes_discrete k index ≡ some i))
      → feed_of (insert m feed none).0 (Maps.get bytes_discrete k index)
        ≡ feed_of m (Maps.get bytes_discrete k index)
  unfolding feed_of insert
  feed_of-insert_old index k ok (inl e) = rw e
  feed_of-insert_old index k ok (inr (i, e)) =
      rw e (ground (arith, ok k i e, Maps.get-insert ℕ_discrete i (length m.feeds) feed m.feeds))

  keys-IsIndex : IsIndex m m.keys
  keys-IsIndex k i e = elim (dec_lt i (length m.feeds)) [
    | yes p ↦ p
    | no p ↦ absurd (ground (arith, valid.keyed k i e, valid.fresh i))
  ]

  dkeys-IsIndex : IsIndex m m.dkeys
  dkeys-IsIndex k i e = elim (dec_lt i (length m.feeds)) [
    | yes p ↦ p
    | no p ↦ absurd (ground (arith, valid.dkeyed k i e, valid.fresh i))
  ]

  -- What a name reads as after an insertion under `name`.
  abbrev pub name_read : Option Bytes → Bytes → Option A.Feed
  name_read none n = get_name m n
  name_read (some name) n = ite (bytes_discrete name n) (some feed) (get_name m n)

  -- After an insertion into a valid map the feed is found under its key, its discovery key and
  -- the name, if one was given; every other key, discovery key and name reads as before.
  pub insert-reads :
      (name : Option Bytes)
      → let m' = (insert m feed name).0 in
        ((k : Bytes)
          → get_key m' k ≡ ite (bytes_discrete (A.public_key feed) k) (some feed) (get_key m k))
        × ((d : Bytes)
            → get_dkey m' d ≡ ite (bytes_discrete (dkey_of A feed) d) (some feed) (get_dkey m d))
        × ((n : Bytes) → get_name m' n ≡ name_read name n)
  unfolding get_key get_dkey get_name insert feed_of
  insert-reads none = (
    (λ k. feed_of-insert m.keys (A.public_key feed) k keys-IsIndex (Option-cases _)),
    (λ d. feed_of-insert m.dkeys (dkey_of A feed) d dkeys-IsIndex (Option-cases _)),
    (λ n. feed_of-insert_old m.names n valid.named (Option-cases _)),
  )
  insert-reads (some name) = (
    (λ k. feed_of-insert m.keys (A.public_key feed) k keys-IsIndex (Option-cases _)),
    (λ d. feed_of-insert m.dkeys (dkey_of A feed) d dkeys-IsIndex (Option-cases _)),
    (λ n. feed_of-insert m.names name n valid.named (Option-cases _)),
  )
