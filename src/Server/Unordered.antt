-- ===== src/Server/Unordered.antt =====
-- The order in which the feeds of a corestore are added to the replicator, which is that of a
-- hash map.
use mathlib.Core.Quot
use mathlib.Core.Quot.{Quot}
use mathlib.Core.List.{Mem, Permᴰ, mem-cons_self, mem-cons_of_mem}
use mathlib.Core.List.Permᴰ
use hyperspace_rs.Base.Maps
use hyperspace_rs.Base.{
  ◌≡◌, refl, ap, ap₂, sym, ◌∙◌, List, [], ◌∷◌, map, some, Bytes, get_elem?, ite, Subscriber,
  bytes_discrete,
}
use hyperspace_rs.FeedMap.{FeedApi}
use hyperspace_rs.Replicator.{Replicator, ReplicatorEvent, new_peered, add_feed, subscribe}
use hyperspace_rs.Replicator.Feeds.{add_feed-reads}
use hyperspace_rs.Replication.{add_all}
use hyperspace_rs.Server.Network.{run, replicator_event, network-announces}

-- The items of a list without their order.
abbrev pub Bag : Type 0 → Type 0
Bag B = Quot (Permᴰ {A = B})

map-Permᴰ : {B C : Type 0} (f : B → C) {xs ys : List B} → Permᴰ xs ys → Permᴰ (map f xs) (map f ys)
map-Permᴰ f Permᴰ.nil = Permᴰ.nil
map-Permᴰ f (Permᴰ.cons e p) = Permᴰ.cons (ap f e) (map-Permᴰ f p)
map-Permᴰ f (Permᴰ.swap e e') = Permᴰ.swap (ap f e) (ap f e')
map-Permᴰ f (Permᴰ.trans p q) = Permᴰ.trans (map-Permᴰ f p) (map-Permᴰ f q)

ite_swap :
    {P Q C : Type 0} (p : Dec P) (q : Dec Q) (x y z : C)
    → (P → Q → x ≡ y)
    → ite q y (ite p x z) ≡ ite p x (ite q y z)
ite_swap (yes a) (yes b) x y z same = sym (same a b)
ite_swap (yes a) (no b) x y z same = refl
ite_swap (no a) (yes b) x y z same = refl
ite_swap (no a) (no b) x y z same = refl

module _ (A : FeedApi) where
  abbrev dkey_of : A.Feed → Bytes
  dkey_of f = A.discovery_key (A.public_key f)

  -- The discovery keys tell the feeds of the list apart.
  abbrev pub IsKeyed : List A.Feed → Type 0
  IsKeyed fs = (f g : A.Feed) → Mem f fs → Mem g fs → dkey_of f ≡ dkey_of g → f ≡ g

  -- Two replicators with the same feed for each discovery key.
  abbrev pub SameFeeds : Replicator A → Replicator A → Type 0
  SameFeeds r r' =
      (d : Bytes) → Maps.get bytes_discrete d r.feeds ≡ Maps.get bytes_discrete d r'.feeds

  add_feed-SameFeeds :
      (f : A.Feed) (r r' : Replicator A) → SameFeeds r r' → SameFeeds (add_feed r f) (add_feed r' f)
  add_feed-SameFeeds f r r' same d =
      (add_feed-reads r f).0 d
      ∙ ap (ite (bytes_discrete (dkey_of f) d) (some (new_peered f))) (same d)
      ∙ sym ((add_feed-reads r' f).0 d)

  add_all-SameFeeds :
      (fs : List A.Feed) (r r' : Replicator A)
      → SameFeeds r r'
      → SameFeeds (add_all fs r) (add_all fs r')
  unfolding add_all
  add_all-SameFeeds [] r r' same = same
  add_all-SameFeeds (f ∷ fs) r r' same =
      add_all-SameFeeds fs (add_feed r f) (add_feed r' f) (add_feed-SameFeeds f r r' same)

  -- Two feeds, one after the other or the other way round.
  add_feed_comm :
      (f g : A.Feed) (r : Replicator A)
      → (dkey_of f ≡ dkey_of g → f ≡ g)
      → SameFeeds (add_feed (add_feed r f) g) (add_feed (add_feed r g) f)
  add_feed_comm f g r apart d =
      (add_feed-reads (add_feed r f) g).0 d
      ∙ ap (ite (bytes_discrete (dkey_of g) d) (some (new_peered g))) ((add_feed-reads r f).0 d)
      ∙ ite_swap (bytes_discrete (dkey_of f) d) (bytes_discrete (dkey_of g) d) (some (new_peered f))
          (some (new_peered g)) (Maps.get bytes_discrete d r.feeds)
          (λ p q. ap (λ x. some (new_peered x)) (apart (p ∙ sym q)))
      ∙ ap (ite (bytes_discrete (dkey_of f) d) (some (new_peered f)))
          (sym ((add_feed-reads r g).0 d))
      ∙ sym ((add_feed-reads (add_feed r g) f).0 d)

  add_all-Permᴰ :
      {fs gs : List A.Feed} (r : Replicator A)
      → IsKeyed fs
      → Permᴰ fs gs
      → SameFeeds (add_all fs r) (add_all gs r)
  unfolding add_all
  add_all-Permᴰ r keyed Permᴰ.nil d = refl
  add_all-Permᴰ r keyed (Permᴰ.cons {a = a} {l₂ = gs} e p) d =
      add_all-Permᴰ (add_feed r a)
        (λ f g m m'. keyed f g (mem-cons_of_mem a m) (mem-cons_of_mem a m')) p d
      ∙ ap (λ x. Maps.get bytes_discrete d (add_all gs (add_feed r x)).feeds) e
  add_all-Permᴰ r keyed (Permᴰ.swap {a = a} {b = b} {l = l} e e') d =
      add_all-SameFeeds l (add_feed (add_feed r a) b) (add_feed (add_feed r b) a)
        (add_feed_comm a b r (keyed a b (mem-cons_self) (mem-cons_of_mem a (mem-cons_self)))) d
      ∙ ap₂ (λ x y. Maps.get bytes_discrete d (add_all l (add_feed (add_feed r x) y)).feeds) e' e
  add_all-Permᴰ r keyed (Permᴰ.trans p q) d =
      add_all-Permᴰ r keyed p d
      ∙ add_all-Permᴰ r
          (λ f g m m'. keyed f g (Permᴰ.mem (Permᴰ.symm p) m) (Permᴰ.mem (Permᴰ.symm p) m')) q d

  -- The order in which feeds are added to the replicator does not matter, when their discovery keys
  -- tell them apart: each discovery key then has the same feed, and the network, once it has handled
  -- its events, has announced the same topics, each as often.
  pub add_all-unordered :
      (E : Type 0) (fs gs : List A.Feed) (r : Replicator A)
      → IsKeyed fs
      → Permᴰ fs gs
      → let (subscribed, place) = subscribe r in
        let announced : Replicator A → Subscriber ReplicatorEvent → Bag Bytes = λ r' s.
          Quot.mk
            (run {E = E}
              (map (λ e. replicator_event e) s.events)
              (record { replicator = r'; topics = [] })).1.topics in
        SameFeeds (add_all fs subscribed) (add_all gs subscribed)
        × (s : Subscriber ReplicatorEvent) × (get_elem? (add_all fs subscribed).subscribers place
            ≡ some s)
        × (t : Subscriber ReplicatorEvent) × (get_elem? (add_all gs subscribed).subscribers place
            ≡ some t)
        × (announced (add_all fs subscribed) s ≡ announced (add_all gs subscribed) t)
  add_all-unordered E fs gs r keyed p =
      let (s, at, run_s) = network-announces A E fs r in
      let (t, at', run_t) = network-announces A E gs r in
      (
        add_all-Permᴰ (subscribe r).0 keyed p,
        s,
        at,
        t,
        at',
        ap (λ x. Quot.mk x.1.topics) run_s
            ∙ Quot.sound (map-Permᴰ dkey_of p)
            ∙ sym (ap (λ x. Quot.mk x.1.topics) run_t),
      )
