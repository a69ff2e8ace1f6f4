-- ===== src/Corestore/Opened.antt =====
-- What `open_feed` does to the map of feeds and to the subscribers, on every branch.

use hyperspace_rs.Base.{
  told, Option, none, some, Bytes, map, ◌>>=◌, Result, ok, err, inl, inr, ◌⊎◌, ◌≡◌, ◌∙◌, ap, sym,
  subst, continue, Fault, >>=-inv, Option-cases, arith,
}
use hyperspace_rs.FeedMap
use hyperspace_rs.FeedMap.{FeedMap}
use hyperspace_rs.FeedMap.Invariant.{IsValid, insert-IsValid}
use hyperspace_rs.Corestore.{Env, World}
use hyperspace_rs.Corestore.Opening.{publish, prepare, open_feed, found_or, key_cached, name_cached}
use hyperspace_rs.Corestore.Prepare.{prepare-IsOnDisk}
use hyperspace_rs.Corestore.Publish.{publish-feeds, publish-ok}

module _ {V : Env} where
  -- The feed that the map holds for the key, or for the name.
  abbrev pub IsCached : World V → Option Bytes → Option Bytes → V.api.Feed → Type 0
  IsCached w key name f =
      (key_cached w.store.feeds key ≡ some f) ⊎ (name_cached w.store.feeds name ≡ some f)

  pub open_feed-key_cached :
      (key name : Option Bytes) (w : World V) {f : V.api.Feed}
      → key_cached w.store.feeds key ≡ some f
      → open_feed key name w ≡ (ok f, w)
  unfolding open_feed found_or
  open_feed-key_cached key name w e =
      ap
        (λ o.
          found_or o (found_or (name_cached w.store.feeds name) (prepare key name >>= publish)) w)
        e

  pub open_feed-name_cached :
      (key name : Option Bytes) (w : World V) {f : V.api.Feed}
      → key_cached w.store.feeds key ≡ none
      → name_cached w.store.feeds name ≡ some f
      → open_feed key name w ≡ (ok f, w)
  unfolding open_feed found_or
  open_feed-name_cached key name w d e =
      ap
        (λ o.
          found_or o (found_or (name_cached w.store.feeds name) (prepare key name >>= publish)) w)
        d
      ∙ ap (λ o. found_or o (prepare key name >>= publish) w) e

  pub open_feed-new :
      (key name : Option Bytes) (w : World V)
      → key_cached w.store.feeds key ≡ none
      → name_cached w.store.feeds name ≡ none
      → open_feed key name w ≡ (prepare key name >>= publish) w
  unfolding open_feed found_or
  open_feed-new key name w d e =
      ap
        (λ o.
          found_or o (found_or (name_cached w.store.feeds name) (prepare key name >>= publish)) w)
        d
      ∙ ap (λ o. found_or o (prepare key name >>= publish) w) e

  publish-IsValid :
      (r : Result (Fault V.Error) (V.api.Feed × Option Bytes) × World V)
      → IsValid r.1.store.feeds
      → IsValid (continue publish r).1.store.feeds
  publish-IsValid (ok (f, g), w) valid =
      subst IsValid (sym (publish-feeds f g w)) (insert-IsValid f g valid)
  publish-IsValid (err e, w) valid = valid

  -- Opening a feed keeps the map of feeds valid, also where it ends in an error or a panic.
  open_feed-IsValid :
      (key name : Option Bytes) (w : World V)
      → IsValid w.store.feeds
      → IsValid (open_feed key name w).1.store.feeds
  open_feed-IsValid key name w valid = elim (Option-cases (key_cached w.store.feeds key)) [
    | inr (f, e) ↦
        subst (λ x. IsValid x.1.store.feeds) (sym (open_feed-key_cached key name w e)) valid
    | inl d ↦ elim (Option-cases (name_cached w.store.feeds name)) [
      | inr (f, e) ↦
          subst (λ x. IsValid x.1.store.feeds) (sym (open_feed-name_cached key name w d e)) valid
      | inl e ↦
          subst (λ x. IsValid x.1.store.feeds) (sym (open_feed-new key name w d e))
            (publish-IsValid (prepare key name w)
              (subst (λ s. IsValid s.feeds) (sym (prepare-IsOnDisk key name w)) valid))
    ]
  ]

  -- What an opening that succeeds has done: nothing, where the feed was in the map; else the
  -- feed is added to the map with some name, and every subscriber is told of it once.
  pub record IsAdded (w : World V) (f : V.api.Feed) (w' : World V) : Type 0 where
    pub named : Option Bytes
    pub added : w'.store.feeds ≡ (FeedMap.insert w.store.feeds f named).0
    pub announced : w'.store.subscribers ≡ map (told f) w.store.subscribers

  pub open_new-IsAdded :
      (key name : Option Bytes) (w w' : World V) (f : V.api.Feed)
      → (prepare key name >>= publish) w ≡ (ok f, w')
      → IsAdded w f w'
  open_new-IsAdded key name w w' f e =
      let ((f', g), t, p, q) = >>=-inv (prepare key name) publish e in
      let same = sym (ap (λ x. x.1.store) p) ∙ prepare-IsOnDisk key name w in
      let (at, added, announced) = publish-ok f' g t w' f q in
      record {
        named = g;
        added =
            added
            ∙ ap (λ s. (FeedMap.insert s.feeds f' g).0) same
            ∙ ap (λ h. (FeedMap.insert w.store.feeds h g).0) (sym at);
        announced =
            announced
            ∙ ap (λ s. map (told f') s.subscribers) same
            ∙ ap (λ h. map (told h) w.store.subscribers) (sym at);
      }

  -- An opening that succeeds with a feed the corestore holds, under the key or the name asked
  -- for, changes nothing and tells nobody; any other one that succeeds adds the feed to the map
  -- and tells every subscriber of it exactly once.
  pub open_feed-announces :
      (key name : Option Bytes) (w w' : World V) (f : V.api.Feed)
      → open_feed key name w ≡ (ok f, w')
      → ((w' ≡ w) × IsCached w key name f)
        ⊎ ((key_cached w.store.feeds key ≡ none)
            × (name_cached w.store.feeds name ≡ none)
            × IsAdded w f w')
  open_feed-announces key name w w' f e = elim (Option-cases (key_cached w.store.feeds key)) [
    | inr (h, p) ↦
        let q = sym (open_feed-key_cached key name w p) ∙ e in
        inl (sym (ap (λ x. x.1) q), inl (ground (arith, p, ap (λ x. x.0) q)))
    | inl d ↦ elim (Option-cases (name_cached w.store.feeds name)) [
      | inr (h, p) ↦
          let q = sym (open_feed-name_cached key name w d p) ∙ e in
          inl (sym (ap (λ x. x.1) q), inr (ground (arith, p, ap (λ x. x.0) q)))
      | inl p ↦
          inr (d, p, open_new-IsAdded key name w w' f (sym (open_feed-new key name w d p) ∙ e))
    ]
  ]
