-- ===== src/Replication/Reached.antt =====
-- What a call of the corestore does to its feeds and its subscribers, unless it panics.
use hyperspace_rs.Base.{
  ◌≡◌, refl, ap, sym, subst, ◌∙◌, map, Option, none, some, Bytes, Bool-cases, Option-cases, Result,
  ok, err, Fault, panicked, continue, pure, gets, ◌>>=◌, inl, inr, ◌⊎◌, told, arith,
}
use hyperspace_rs.FeedMap
use hyperspace_rs.Corestore.{Env, World, Method}
use hyperspace_rs.Corestore.Methods.{send_all, feed_storage, key_file}
use hyperspace_rs.Corestore.Opening.{
  open_feed, publish, prepare, key_cached, name_cached, get_by_key, get_by_dkey, feed_of_key,
  get_from_disk, found_dkey,
}
use hyperspace_rs.Corestore.Prepare.{prepare-IsOnDisk, feed_storage-IsOnDisk}
use hyperspace_rs.Corestore.Publish.{publish-run, send_all-sent}
use hyperspace_rs.Corestore.Opened.{
  IsAdded, open_feed-key_cached, open_feed-name_cached, open_feed-new,
}

module _ {V : Env} where
  abbrev pub Reaches : World V → World V → Type 0
  Reaches w w' = (w'.store ≡ w.store) ⊎ ((f : V.api.Feed) × IsAdded w f w')

  -- The result is a panic, or the world is reached.
  abbrev pub Ends : {A : Type 0} → World V → Result (Fault V.Error) A × World V → Type 0
  Ends w r = (r.0 ≡ err panicked) ⊎ Reaches w r.1

  -- What was reached from a world with the same corestore.
  Ends-from :
      {A : Type 0} (w t : World V) (r : Result (Fault V.Error) A × World V)
      → t.store ≡ w.store
      → Ends t r
      → Ends w r
  Ends-from w t r same (inl p) = inl p
  Ends-from w t r same (inr (inl e)) = inr (inl (e ∙ same))
  Ends-from w t r same (inr (inr (f, a))) = inr (
      inr (
        f,
        record {
          named = a.named;
          added = a.added ∙ ap (λ s. (FeedMap.insert s.feeds f a.named).0) same;
          announced = a.announced ∙ ap (λ s. map (told f) s.subscribers) same;
        },
      ))

  publish-Ends :
      (w : World V) (r : Result (Fault V.Error) (V.api.Feed × Option Bytes) × World V)
      → r.1.store ≡ w.store
      → Ends w (continue publish r)
  publish-Ends w (err e, t) same = inr (inl same)
  publish-Ends w (ok (f, g), t) same = elim (Bool-cases (send_all f t.store.subscribers).0) [
    | inr p ↦ inl (ap (λ x. x.0) (publish-run f g t) ∙ ground (arith, p))
    | inl p ↦ Ends-from w t (publish (f, g) t) same (
        inr (
          inr (
            f,
            record {
              named = g;
              added = ap (λ x. x.1.store.feeds) (publish-run f g t);
              announced =
                  ap (λ x. x.1.store.subscribers) (publish-run f g t)
                  ∙ send_all-sent f t.store.subscribers p;
            },
          )))
  ]

  pub open_feed-Ends : (key name : Option Bytes) (w : World V) → Ends w (open_feed key name w)
  open_feed-Ends key name w = elim (Option-cases (key_cached w.store.feeds key)) [
    | inr (f, e) ↦ subst (Ends w) (sym (open_feed-key_cached key name w e)) (inr (inl refl))
    | inl d ↦ elim (Option-cases (name_cached w.store.feeds name)) [
      | inr (f, e) ↦ subst (Ends w) (sym (open_feed-name_cached key name w d e)) (inr (inl refl))
      | inl e ↦
          subst (Ends w) (sym (open_feed-new key name w d e))
            (publish-Ends w (prepare key name w) (prepare-IsOnDisk key name w))
    ]
  ]

  some-Ends :
      (w : World V) (r : Result (Fault V.Error) V.api.Feed × World V)
      → Ends w r
      → Ends w (continue (λ feed. pure (some feed)) r)
  some-Ends w (ok f, t) (inl p) = absurd (ground (arith, p))
  some-Ends w (ok f, t) (inr h) = inr h
  some-Ends w (err e, t) (inl p) = inl (ground (arith, p))
  some-Ends w (err e, t) (inr h) = inr h

  feed_of_key-Ends : (k : Result V.Error Bytes) (w : World V) → Ends w (feed_of_key k w)
  unfolding feed_of_key get_by_key
  feed_of_key-Ends (ok key) w =
      some-Ends w (open_feed (some key) none w) (open_feed-Ends (some key) none w)
  feed_of_key-Ends (err e) w = inr (inl refl)

  from_disk-Ends :
      {P : Type 0} (f : P → Method V (Option V.api.Feed)) (w : World V)
      (r : Result (Fault V.Error) P × World V)
      → ((path : P) (t : World V) → Ends t (f path t))
      → r.1.store ≡ w.store
      → Ends w (continue f r)
  from_disk-Ends f w (ok path, t) h same = Ends-from w t (f path t) same (h path t)
  from_disk-Ends f w (err e, t) h same = inr (inl same)

  found_dkey-Ends :
      (dkey : Bytes) (o : Option V.api.Feed) (w : World V) → Ends w (found_dkey dkey o w)
  unfolding found_dkey get_from_disk
  found_dkey-Ends dkey (some f) w = inr (inl refl)
  found_dkey-Ends dkey none w =
      from_disk-Ends (λ path. gets (λ w. V.read_file w.disk path 0 32) >>= feed_of_key) w
        (feed_storage dkey key_file w) (λ path t. feed_of_key-Ends (V.read_file t.disk path 0 32) t)
        (feed_storage-IsOnDisk dkey key_file w)

  pub get_by_dkey-Ends : (dkey : Bytes) (w : World V) → Ends w (get_by_dkey dkey w)
  unfolding get_by_dkey
  get_by_dkey-Ends dkey w = found_dkey-Ends dkey (FeedMap.get_dkey w.store.feeds dkey) w
