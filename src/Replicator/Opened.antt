-- ===== src/Replicator/Opened.antt =====
-- Which channels a connection opens.
use hyperspace_rs.Base.Maps
use hyperspace_rs.Base.{
  ◌≡◌, refl, ◌∙◌, [], ◌∷◌, List, map, Bool-cases, Option, none, some, Bytes, bytes_discrete, Result,
  ok, err, arith, continue, unwrap, modify, Fault, inl, inr,
}
use hyperspace_rs.FeedMap.{FeedApi}
use hyperspace_rs.Replicator.{Replicator, PeeredFeed, feed, discovery_key, add_peer}
use hyperspace_rs.Replicator.Connection.{
  Connection, Step, handshake, channel, remote_discovery_key, other_protocol, replicator_event,
  error, Happening, arrives, elsewhere, open_channel, open_all, on_handshake, join, on_channel,
  on_feed, on_event, on_happening, run_peer,
}

-- No channel was opened as long as there was no handshake.
abbrev pub IsSilent : {A : FeedApi} → Connection A → Type 0
IsSilent c = c.remote_public_key ≡ none → c.opened ≡ []

-- The keys of the feeds, in the order of the map.
abbrev pub public_keys : {A : FeedApi} → Replicator A → List Bytes
public_keys {A} r = map (λ e. A.public_key e.1.feed) r.feeds

module _ {A : FeedApi} (E : Type 0) where
  open_channel-remote :
      (key : Bytes) (c : Connection A)
      → (open_channel {E = E} key c).1.remote_public_key ≡ c.remote_public_key
  unfolding open_channel
  open_channel-remote key c = elim (Bool-cases (c.takes key)) [
    | inl e ↦ rw e refl
    | inr e ↦ rw e refl
  ]

  continue-remote :
      {B D : Type 0} (f : B → Step A E D) (r : Result (Fault E) B × Connection A)
      → ((b : B) (c : Connection A) → (f b c).1.remote_public_key ≡ c.remote_public_key)
      → (continue f r).1.remote_public_key ≡ r.1.remote_public_key
  continue-remote f (ok b, c) h = h b c
  continue-remote f (err e, c) h = refl

  open_all-remote :
      (keys : List Bytes) (c : Connection A)
      → (open_all {E = E} keys c).1.remote_public_key ≡ c.remote_public_key
  unfolding open_all
  open_all-remote [] c = refl
  open_all-remote (key ∷ keys) c =
      continue-remote (λ _. open_all keys) (open_channel key c) (λ _. open_all-remote keys)
      ∙ open_channel-remote key c

  -- Once the handshake is done, nothing is asked of the connection.
  known-IsSilent : (c : Connection A) (key : Bytes) → c.remote_public_key ≡ some key → IsSilent c
  known-IsSilent c key e n = absurd (ground (arith, e, n))

  handshake-IsSilent : (key : Bytes) (c : Connection A) → IsSilent (on_handshake {E = E} key c).1
  unfolding on_handshake
  handshake-IsSilent key c =
      let c' : Connection A = record c { remote_public_key = some key } in
      let keys = map (λ e. A.public_key e.1.feed) c.replicator.feeds in
      known-IsSilent (open_all {E = E} keys c').1 key (open_all-remote keys c')

  join-IsSilent :
      (dkey : Bytes) (o : Option (PeeredFeed A)) (c : Connection A)
      → IsSilent c
      → IsSilent (join {E = E} dkey o c).1
  unfolding join
  join-IsSilent dkey none c silent = silent
  join-IsSilent dkey (some p) c silent = joined c.remote_public_key refl
    where
      joins : Bytes → Step A E (Unit {0})
      joins id = modify (λ c'. record c' {
        replicator = record c'.replicator {
          feeds = Maps.insert bytes_discrete dkey (add_peer p id) c'.replicator.feeds;
        };
      })

      joined :
          (o : Option Bytes) → c.remote_public_key ≡ o → IsSilent (continue joins (unwrap o c)).1
      joined none e = silent
      joined (some id) e = silent

  feed-IsSilent :
      (key : Bytes) (o : Option Bytes) (c : Connection A)
      → c.remote_public_key ≡ o
      → IsSilent c
      → IsSilent (on_feed {E = E} key o c).1
  unfolding on_feed
  feed-IsSilent key none c e silent = silent
  feed-IsSilent key (some remote) c e silent =
      known-IsSilent (open_channel {E = E} key c).1 remote (open_channel-remote key c ∙ e)

  happening-IsSilent :
      (h : Happening A E) (c : Connection A) → IsSilent c → IsSilent (on_happening h c).1
  unfolding on_happening on_event on_channel
  happening-IsSilent (arrives (handshake key)) c silent = handshake-IsSilent key c
  happening-IsSilent (arrives (channel dkey)) c silent =
      join-IsSilent dkey (Maps.get bytes_discrete dkey c.replicator.feeds) c silent
  happening-IsSilent (arrives (remote_discovery_key _)) c silent = silent
  happening-IsSilent (arrives other_protocol) c silent = silent
  happening-IsSilent (arrives (replicator_event (feed key))) c silent =
      feed-IsSilent key c.remote_public_key c refl silent
  happening-IsSilent (arrives (replicator_event (discovery_key _))) c silent = silent
  happening-IsSilent (arrives (error e)) c silent = silent
  happening-IsSilent (elsewhere f) c silent = silent

  continue-IsSilent :
      {B D : Type 0} (f : B → Step A E D) (r : Result (Fault E) B × Connection A)
      → ((b : B) (c : Connection A) → IsSilent c → IsSilent (f b c).1)
      → IsSilent r.1
      → IsSilent (continue f r).1
  continue-IsSilent f (ok b, c) h silent = h b c silent
  continue-IsSilent f (err e, c) h silent = silent

  -- A connection opens no channel before its handshake, whatever happens on it, whatever other
  -- tasks do to the replicator meanwhile, and however the loop ends. It starts as one that has
  -- opened none.
  pub run_peer-IsSilent :
      (hs : List (Happening A E)) (c : Connection A) → IsSilent c → IsSilent (run_peer hs c).1
  unfolding run_peer
  run_peer-IsSilent [] c silent = silent
  run_peer-IsSilent (h ∷ hs) c silent =
      continue-IsSilent (λ _. run_peer hs) (on_happening h c) (λ _. run_peer-IsSilent hs)
        (happening-IsSilent h c silent)
