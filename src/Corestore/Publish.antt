-- ===== src/Corestore/Publish.antt =====
-- What publishing a feed does to the corestore, and to its subscribers.

use hyperspace_rs.Base.{
  Subscriber, told, Option, Bytes, List, [], ◌∷◌, map, ok, err, true, Bool-cases, inl, inr,
  if◌then◌else◌, ◌≡◌, refl, arith, ◌∙◌, ap, sym, panicked,
}
use hyperspace_rs.FeedMap
use hyperspace_rs.Corestore.{Env, World}
use hyperspace_rs.Corestore.Methods.{send_all, emit}
use hyperspace_rs.Corestore.Opening.{insert_feed, publish}

-- When all senders are there, each has the event once; this is so whenever sending succeeds.
pub send_all-sent :
    {Event : Type 0} (event : Event) (ss : List (Subscriber Event))
    → (send_all event ss).0 ≡ true
    → (send_all event ss).1 ≡ map (told event) ss
unfolding send_all
send_all-sent event [] e = refl
send_all-sent event (s ∷ ss) e = elim (Bool-cases s.connected) [
  | inl p ↦ rw (p, send_all-sent event ss (ground (arith, p, e)))
  | inr p ↦ absurd (ground (arith, p, e))
]

module _ {V : Env} where
  pub publish-run :
      (f : V.api.Feed) (g : Option Bytes) (w : World V)
      → let (sent, subscribers) = send_all f w.store.subscribers in
        publish (f, g) w ≡ (
          (if sent then ok f else err panicked),
          record w {
            store = record w.store {
              feeds = (FeedMap.insert w.store.feeds f g).0;
              subscribers = subscribers;
            };
          },
        )
  unfolding publish insert_feed emit FeedMap.insert
  publish-run f g w = elim (Bool-cases (send_all f w.store.subscribers).0) [
    | inl e ↦ rw e refl
    | inr e ↦ rw e refl
  ]

  -- The map after a feed is published, whether the subscribers could all be told or not.
  pub publish-feeds :
      (f : V.api.Feed) (g : Option Bytes) (w : World V)
      → (publish (f, g) w).1.store.feeds ≡ (FeedMap.insert w.store.feeds f g).0
  publish-feeds f g w = ap (λ x. x.1.store.feeds) (publish-run f g w)

  pub publish-ok :
      (f : V.api.Feed) (g : Option Bytes) (w w' : World V) (f' : V.api.Feed)
      → publish (f, g) w ≡ (ok f', w')
      → (f' ≡ f)
        × (w'.store.feeds ≡ (FeedMap.insert w.store.feeds f g).0)
        × (w'.store.subscribers ≡ map (told f) w.store.subscribers)
  publish-ok f g w w' f' e =
      let h = sym (publish-run f g w) ∙ e in
      elim (Bool-cases (send_all f w.store.subscribers).0) [
        | inl p ↦ (
          ground (arith, p, ap (λ x. x.0) h),
          sym (ap (λ x. x.1.store.feeds) h),
          sym (ap (λ x. x.1.store.subscribers) h) ∙ send_all-sent f w.store.subscribers p,
        )
        | inr p ↦ absurd (ground (arith, p, ap (λ x. x.0) h))
      ]
