-- ===== src/Corestore/Told.antt =====
-- What a subscriber of the shared corestore hears, whatever is called meanwhile.
use hyperspace_rs.Base.{
  ℕ, ℕ_discrete, ◌≤◌, ◌≡◌, refl, ap, sym, subst, ◌∙◌, List, [], ◌∷◌, ◌++◌, map, length, drop,
  drop_append, drop_all, length-append, map_append, get_elem?, get_elem?-map, get_elem?-append,
  get_elem?-end, All, All-map, All-append, Subscriber, told, Option, none, some, true, Bytes,
  Result, ok, err, pure, gets, ◌>>=◌, Preserves, >>=-Preserves, arith, Option-cases, inl, inr,
}
use hyperspace_rs.Base.Maps
use hyperspace_rs.FeedMap
use hyperspace_rs.FeedMap.{FeedApi, FeedMap}
use hyperspace_rs.FeedMap.Invariant.{IsValid, insert-IsValid}
use hyperspace_rs.Corestore.{Env, World, Method}
use hyperspace_rs.Corestore.Methods
use hyperspace_rs.Corestore.Methods.{send_all, feed_storage, key_file, open_store, empty_store}
use hyperspace_rs.Corestore.Opening
use hyperspace_rs.Corestore.Opening.{
  open_feed, prepare, publish, key_cached, name_cached, found_dkey, get_from_disk, feed_of_key,
}
use hyperspace_rs.Corestore.Prepare.{IsOnDisk, prepare-IsOnDisk, feed_storage-IsOnDisk}
use hyperspace_rs.Corestore.Publish.{publish-run, send_all-sent}
use hyperspace_rs.Corestore.Opened.{open_feed-new, open_feed-key_cached, open_feed-name_cached}
use hyperspace_rs.Corestore.Shared
use hyperspace_rs.Corestore.Shared.{
  Call, subscribes, by_key, by_name, by_dkey, lists, after_call, after_calls,
}

-- Every subscriber is there.
abbrev AllThere : {Event : Type 0} → List (Subscriber Event) → Type 0
AllThere ss = All (λ s. s.connected ≡ true) ss

send_all-there :
    {Event : Type 0} (event : Event) (ss : List (Subscriber Event))
    → AllThere ss
    → (send_all event ss).0 ≡ true
unfolding send_all
send_all-there event [] h = refl
send_all-there event (s ∷ ss) (there, rest) = ground (arith, there, send_all-there event ss rest)

told-AllThere :
    {Event : Type 0} (event : Event) (ss : List (Subscriber Event))
    → AllThere ss
    → AllThere (map (told event) ss)
told-AllThere event ss h = All-map (told event) (λ s. s.connected ≡ true) ss h

-- The feeds of a map after an insertion: the new one is the last.
iter-insert :
    {A : FeedApi} {m : FeedMap A} (f : A.Feed) (name : Option Bytes)
    → IsValid m
    → FeedMap.iter (FeedMap.insert m f name).0 ≡ FeedMap.iter m ++ f ∷ []
unfolding FeedMap.iter FeedMap.insert FeedMap.add_name
iter-insert {A} {m} f none valid =
    ap (map (λ e. e.1))
      (Maps.insert_new ℕ_discrete (length m.feeds) f m.feeds (valid.fresh _ (omega arith)))
    ∙ map_append (λ (e : ℕ × A.Feed). e.1) m.feeds _
iter-insert {A} {m} f (some name) valid =
    ap (map (λ e. e.1))
      (Maps.insert_new ℕ_discrete (length m.feeds) f m.feeds (valid.fresh _ (omega arith)))
    ∙ map_append (λ (e : ℕ × A.Feed). e.1) m.feeds _

module _ {V : Env} where
  abbrev pub held_feeds : World V → List V.api.Feed
  held_feeds w = FeedMap.iter w.store.feeds

  -- The subscriber at `place` has heard of all feeds but the first `n`.
  abbrev pub Hears : ℕ → ℕ → World V → Type 0
  Hears place n w =
      (s : Subscriber V.api.Feed) × (get_elem? w.store.subscribers place ≡ some s)
      × (n ≤ length (held_feeds w))
      × (s.events ≡ drop n (held_feeds w))

  -- No receiver is gone, and the subscriber is up to date.
  abbrev pub IsTold : ℕ → ℕ → World V → Type 0
  IsTold place n w = IsValid w.store.feeds × AllThere w.store.subscribers × Hears place n w

  publish-IsTold :
      (place n : ℕ) (f : V.api.Feed) (g : Option Bytes)
      → Preserves (IsTold place n) (publish (f, g))
  publish-IsTold place n f g w (valid, there, (s, at, low, heard)) =
      let sent = send_all-there f w.store.subscribers there in
      let subscribers = send_all-sent f w.store.subscribers sent in
      let grown = iter-insert f g valid in
      subst (λ x. IsTold place n x.1) (sym (publish-run f g w))
        (
          insert-IsValid f g valid,
          subst AllThere (sym subscribers) (told-AllThere f w.store.subscribers there),
          (
            told f s,
            ap (λ ss. get_elem? ss place) subscribers
                ∙ get_elem?-map (told f) w.store.subscribers place at,
            omega (arith, low, ap length grown, length-append (held_feeds w) (f ∷ [])),
            ap (λ xs. xs ++ f ∷ []) heard
                ∙ sym (drop_append n (held_feeds w) (f ∷ []) low)
                ∙ ap (drop n) (sym grown),
          ),
        )

  -- What leaves the corestore itself alone leaves the subscriber up to date.
  on_disk-IsTold :
      {A : Type 0} (place n : ℕ) (m : Method V A) → IsOnDisk m → Preserves (IsTold place n) m
  on_disk-IsTold place n m on_disk w h =
      subst
        (λ s.
          IsValid s.feeds
          × AllThere s.subscribers
          × ((x : Subscriber V.api.Feed) × (get_elem? s.subscribers place ≡ some x)
              × (n ≤ length (FeedMap.iter s.feeds))
              × (x.events ≡ drop n (FeedMap.iter s.feeds))))
        (sym (on_disk w)) h

  open_feed-IsTold :
      (place n : ℕ) (key name : Option Bytes) → Preserves (IsTold place n) (open_feed key name)
  open_feed-IsTold place n key name w h = elim (Option-cases (key_cached w.store.feeds key)) [
    | inr (f, e) ↦ subst (λ x. IsTold place n x.1) (sym (open_feed-key_cached key name w e)) h
    | inl d ↦ elim (Option-cases (name_cached w.store.feeds name)) [
      | inr (f, e) ↦ subst (λ x. IsTold place n x.1) (sym (open_feed-name_cached key name w d e)) h
      | inl e ↦
          subst (λ x. IsTold place n x.1) (sym (open_feed-new key name w d e))
            (>>=-Preserves (IsTold place n) (prepare key name) publish
              (on_disk-IsTold place n (prepare key name) (prepare-IsOnDisk key name))
              (λ x. publish-IsTold place n x.0 x.1) w h)
    ]
  ]

  feed_of_key-IsTold :
      (place n : ℕ) (r : Result V.Error Bytes) → Preserves (IsTold place n) (feed_of_key r)
  unfolding feed_of_key Opening.get_by_key
  feed_of_key-IsTold place n (ok key) =
      >>=-Preserves (IsTold place n) (open_feed (some key) none) (λ feed. pure (some feed))
        (open_feed-IsTold place n (some key) none) (λ feed w h. h)
  feed_of_key-IsTold place n (err e) = λ w h. h

  found_dkey-IsTold :
      (place n : ℕ) (dkey : Bytes) (o : Option V.api.Feed)
      → Preserves (IsTold place n) (found_dkey dkey o)
  unfolding found_dkey get_from_disk
  found_dkey-IsTold place n dkey (some f) = λ w h. h
  found_dkey-IsTold place n dkey none =
      >>=-Preserves (IsTold place n) (feed_storage dkey key_file)
        (λ path. gets (λ w. V.read_file w.disk path 0 32) >>= λ key. feed_of_key key)
        (on_disk-IsTold place n (feed_storage dkey key_file) (feed_storage-IsOnDisk dkey key_file))
        (λ path w. feed_of_key-IsTold place n (V.read_file w.disk path 0 32) w)

  after_call-IsTold :
      (place n : ℕ) (call : Call) (w : World V)
      → IsTold place n w
      → IsTold place n (after_call call w)
  unfolding after_call Shared.get_by_key Shared.get_by_name Shared.get_by_dkey Shared.feeds
      Shared.subscribe Methods.subscribe Methods.feeds Opening.get_by_key Opening.get_by_name
      Opening.get_by_dkey
  after_call-IsTold place n (by_key key) w h = open_feed-IsTold place n (some key) none w h
  after_call-IsTold place n (by_name name) w h = open_feed-IsTold place n none (some name) w h
  after_call-IsTold place n (by_dkey dkey) w h =
      found_dkey-IsTold place n dkey (FeedMap.get_dkey w.store.feeds dkey) w h
  after_call-IsTold place n lists w h = h
  after_call-IsTold place n subscribes w (valid, there, (s, at, low, heard)) = (
    valid,
    All-append (λ x. x.connected ≡ true) w.store.subscribers _ there (refl, tt),
    (s, get_elem?-append w.store.subscribers _ place at, low, heard),
  )

  after_calls-IsTold :
      (place n : ℕ) (calls : List Call) (w : World V)
      → IsTold place n w
      → IsTold place n (after_calls calls w)
  unfolding after_calls
  after_calls-IsTold place n [] w h = h
  after_calls-IsTold place n (call ∷ calls) w h =
      after_calls-IsTold place n calls (after_call call w) (after_call-IsTold place n call w h)

  -- A subscriber of the corestore hears of every feed that is opened after it has subscribed,
  -- once and in the order in which they are opened, and of no other, through any sequence of
  -- calls of the tasks that share the corestore, whether they succeed or not: its events are the
  -- feeds of the corestore without those that were there before. The map of feeds is valid, and
  -- no receiver is dropped.
  pub subscriber-hears :
      (w : World V) (calls : List Call)
      → IsValid w.store.feeds
      → All (λ s. s.connected ≡ true) w.store.subscribers
      → let place = length w.store.subscribers in
        let w' = after_calls calls (after_call subscribes w) in
        (s : Subscriber V.api.Feed) × (get_elem? w'.store.subscribers place ≡ some s)
        × (s.events ≡ drop (length (held_feeds w)) (held_feeds w'))
  unfolding after_call Shared.subscribe Methods.subscribe
  subscriber-hears w calls valid there =
      let new : Subscriber V.api.Feed = record { connected = true; events = [] } in
      let (_, _, (s, at, _, heard)) =
        after_calls-IsTold (length w.store.subscribers) (length (held_feeds w)) calls
          (after_call subscribes w)
          (
            valid,
            All-append (λ x. x.connected ≡ true) w.store.subscribers (new ∷ []) there (refl, tt),
            (
              new,
              get_elem?-end w.store.subscribers new,
              omega arith,
              sym (drop_all (held_feeds w)),
            ),
          ) in
      (s, at, heard)
