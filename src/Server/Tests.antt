-- ===== src/Server/Tests.antt =====
-- A server on a world that knows only whether the socket file is there.
use hyperspace_rs.Base.{
  ℕ, ◌+◌, ◌≡◌, refl, arith, List, [], ◌∷◌, map, Bool, true, false, Bytes, Result, ok, err, failed,
  get_elem?, Subscriber, some,
}
use hyperspace_rs.FeedMap.{FeedApi}
use hyperspace_rs.Replicator.{Replicator, ReplicatorEvent, new, add_feed, subscribe}
use hyperspace_rs.Replication.{add_all}
use hyperspace_rs.Replication
use hyperspace_rs.FeedMap
use hyperspace_rs.Corestore.{Bare}
use hyperspace_rs.Corestore.Methods
use hyperspace_rs.Corestore.Methods.{open_store, default_name}
use hyperspace_rs.Corestore.Sample.{plain, copies}
use hyperspace_rs.Server.Listen.{State, storage_dir}
use hyperspace_rs.Server.Socket.{SocketOps, SocketLaws, Accepting, accept, accept-serves}
use mathlib.Core.Quot.{Quot}
use mathlib.Core.List.{Permᴰ}
use hyperspace_rs.Server.Unordered.{Bag, IsKeyed, SameFeeds, add_all-unordered}
use hyperspace_rs.Server.Network.{run, replicator_event}

abbrev bind_if : Bool → Result ℕ (Unit {0}) × Bool
bind_if true = (err 98, true)
bind_if false = (ok tt, true)

abbrev remove_if : Bool → Result ℕ (Unit {0}) × Bool
remove_if true = (ok tt, false)
remove_if false = (err 2, false)

abbrev flags : SocketOps
flags = record { Error = ℕ; World = Bool; Stream = ℕ; bind = bind_if; remove_file = remove_if }

bind_free-flags : (w : Bool) → w ≡ false → ((bind_if w).0 ≡ ok tt) × ((bind_if w).1 ≡ true)
bind_free-flags true e = absurd (ground (arith, e))
bind_free-flags false e = (refl, refl)

bind_taken-flags : (w : Bool) → w ≡ true → (e : ℕ) × (bind_if w ≡ (err e, w))
bind_taken-flags true e = (98, refl)
bind_taken-flags false e = absurd (ground (arith, e))

remove_there-flags : (w : Bool) → w ≡ true → ((remove_if w).0 ≡ ok tt) × ((remove_if w).1 ≡ false)
remove_there-flags true e = (refl, refl)
remove_there-flags false e = absurd (ground (arith, e))

abbrev flags_laws : SocketLaws flags
flags_laws = record {
  is_file = λ w. w;
  bind_free = bind_free-flags;
  bind_taken = bind_taken-flags;
  remove_there = remove_there-flags;
}

abbrev stale : Accepting flags
stale = record { world = true; connections = [] }

accept-serves_example :
    ((w : Bool) × (accept {S = flags} (ok 5 ∷ ok 6 ∷ []) stale
        ≡ (ok tt, record { world = w; connections = 5 ∷ 6 ∷ [] }))
      × (w ≡ false))
    × ((e : ℕ) (rest : List (Result ℕ ℕ))
        → (w : Bool) × (accept {S = flags} (ok 5 ∷ ok 6 ∷ err e ∷ rest) stale
            ≡ (err (failed e), record { world = w; connections = 5 ∷ 6 ∷ [] }))
          × (w ≡ true))
accept-serves_example = accept-serves flags_laws (5 ∷ 6 ∷ []) stale

abbrev numbers : FeedApi
numbers = record { Feed = ℕ; public_key = λ f. f ∷ []; discovery_key = λ k. map (λ b. b + 1) k }

abbrev here : Bare plain
here = record { disk = λ _. []; drawn = 3 }

abbrev started : State plain
started = record {
  corestore = record {
    store = record {
      master_key = copies 32 3;
      feeds = FeedMap.new;
      name = default_name;
      storage_path = storage_dir ∷ [];
      subscribers = [];
    };
    disk = (open_store {V = plain} (storage_dir ∷ []) here).1.disk;
    drawn = 4;
  };
  replicator = new;
}

numbers-IsKeyed : IsKeyed numbers (3 ∷ 7 ∷ [])
numbers-IsKeyed f g m m' e = ground (arith, e)

add_all-unordered_example :
    let subscribed : Replicator numbers = (subscribe {A = numbers} (add_feed new 1)).0 in
    let announced : Replicator numbers → Subscriber ReplicatorEvent → Bag Bytes = λ r s.
      Quot.mk
        (run {A = numbers} {E = ℕ}
          (map (λ e. replicator_event e) s.events)
          (record { replicator = r; topics = [] })).1.topics in
    SameFeeds numbers (add_all (3 ∷ 7 ∷ []) subscribed) (add_all (7 ∷ 3 ∷ []) subscribed)
    × (s : Subscriber ReplicatorEvent) × (get_elem?
          (add_all {A = numbers} (3 ∷ 7 ∷ []) subscribed).subscribers
          0
        ≡ some s)
    × (t : Subscriber ReplicatorEvent) × (get_elem?
          (add_all {A = numbers} (7 ∷ 3 ∷ []) subscribed).subscribers
          0
        ≡ some t)
    × (announced (add_all (3 ∷ 7 ∷ []) subscribed) s
        ≡ announced (add_all (7 ∷ 3 ∷ []) subscribed) t)
unfolding add_feed new subscribe hyperspace_rs.Replicator.emit
add_all-unordered_example =
    add_all-unordered numbers ℕ (3 ∷ 7 ∷ []) (7 ∷ 3 ∷ []) (add_feed new 1) numbers-IsKeyed
      (Permᴰ.swap refl refl)
