-- ===== src/Server/Network.antt =====
-- server/src/network.rs: `run`, which announces the feeds of the replicator on the swarm and gives
-- the swarm's connections to the replicator.
use hyperspace_rs.Base
use hyperspace_rs.Base.{
  get_elem?-end, ℕ, zero, suc, ◌≡◌, refl, ap, ap₂, sym, ◌∙◌, List, [], ◌∷◌, ◌++◌, map, length,
  append_assoc, append-nil, Option, none, some, Bool, true, false, Bytes, Result, ok, err, Fault,
  failed, pure, ◌>>◌, >>=-ok, get_elem?, get_elem?-map, Subscriber, tell_all, told, if◌then◌else◌,
  ltb, arith,
}
use hyperspace_rs.FeedMap.{FeedApi}
use hyperspace_rs.Replicator.{
  Replicator, ReplicatorEvent, feed, discovery_key, add_feed, add_stream, emit, subscribe,
}
use hyperspace_rs.Replication.{add_all}

-- `swarm_config_from_opts`: the bootstrap nodes, or none for the default ones.
unfoldable pub swarm_config : {Addr : Type 0} → List Addr → Option (List Addr)
swarm_config bootstrap = if ltb 0 (length bootstrap) then some bootstrap else none

-- An event of the replicator, or a connection of the swarm, known by whether we are the initiator.
pub data Event (E : Type 0) : Type 0 where
  replicator_event : ReplicatorEvent → Event E
  swarm : Result E Bool → Event E

-- The replicator and the topics that were configured to announce and look up.
pub record Network (A : FeedApi) : Type 0 where
  pub replicator : Replicator A
  pub topics : List Bytes

module _ {A : FeedApi} {E : Type 0} where
  unfoldable pub on_event : Event E → Base.Action (Network A) E (Unit {0})
  on_event (replicator_event (feed dkey)) n = (ok tt, record n { topics = n.topics ++ dkey ∷ [] })
  on_event (replicator_event (discovery_key _)) n = (ok tt, n)
  on_event (swarm (ok is_initiator)) n =
      (ok tt, record n { replicator = add_stream n.replicator is_initiator })
  on_event (swarm (err e)) n = (err (failed e), n)

  unfoldable pub run : List (Event E) → Base.Action (Network A) E (Unit {0})
  run [] = pure tt
  run (event ∷ events) = on_event event >> run events

module _ (A : FeedApi) where
  -- What is told of the feeds that are added.
  abbrev pub feed_events : List A.Feed → List ReplicatorEvent
  feed_events [] = []
  feed_events (f ∷ fs) = feed (A.discovery_key (A.public_key f)) ∷ feed_events fs

  abbrev pub topics_of : List A.Feed → List Bytes
  topics_of fs = map (λ f. A.discovery_key (A.public_key f)) fs

  told_of-all :
      (fs : List A.Feed) (r : Replicator A) (i : ℕ) (s : Subscriber ReplicatorEvent)
      → get_elem? r.subscribers i ≡ some s
      → s.connected ≡ true
      → get_elem? (add_all fs r).subscribers i
        ≡ some (record { connected = true; events = s.events ++ feed_events fs })
  unfolding add_all add_feed emit
  told_of-all [] r i s at there =
      at
      ∙ ap₂ (λ c es. some (record { connected = c; events = es })) there (sym (append-nil s.events))
  told_of-all (f ∷ fs) r i s at there =
      let event : ReplicatorEvent = feed (A.discovery_key (A.public_key f)) in
      let tell : Subscriber ReplicatorEvent → Subscriber ReplicatorEvent =
        λ x. if x.connected then told event x else x in
      let next : get_elem? (add_feed r f).subscribers i ≡ some (told event s) =
        get_elem?-map tell r.subscribers i at
        ∙ ap (λ b. some (if b then told event s else s)) there in
      told_of-all fs (add_feed r f) i (told event s) next there
      ∙ ap (λ es. some (record { connected = true; events = es }))
          (append_assoc s.events (event ∷ []) (feed_events fs))

  run-topics :
      {E : Type 0} (fs : List A.Feed) (n : Network A)
      → run {E = E} (map (λ e. replicator_event e) (feed_events fs)) n
        ≡ (ok tt, record n { topics = n.topics ++ topics_of fs })
  unfolding run on_event
  run-topics [] n = ap (λ ts. (ok tt, record n { topics = ts })) (sym (append-nil n.topics))
  run-topics (f ∷ fs) n =
      run-topics fs _
      ∙ ap (λ ts. (ok tt, record n { topics = ts }))
          (append_assoc n.topics (A.discovery_key (A.public_key f) ∷ []) (topics_of fs))

  pub network-announces :
      (E : Type 0) (fs : List A.Feed) (r : Replicator A)
      → let (subscribed, place) = subscribe r in
        let r' = add_all fs subscribed in
        (s : Subscriber ReplicatorEvent) × (get_elem? r'.subscribers place ≡ some s)
        × (run {E = E}
              (map (λ e. replicator_event e) s.events)
              (record { replicator = r'; topics = [] })
            ≡ (ok tt, record { replicator = r'; topics = topics_of fs }))
  unfolding subscribe
  network-announces E fs r =
      let new : Subscriber ReplicatorEvent = record { connected = true; events = [] } in
      (
        record { connected = true; events = feed_events fs },
        told_of-all fs (subscribe r).0 (length r.subscribers) new (get_elem?-end r.subscribers new)
            refl,
        run-topics fs _,
      )
